-- ===== src/Tests/Encodings.antt =====
-- src/write.rs and src/read.rs: the choice of an encoding, and of a width, at concrete columns.
use parquet_interop.Prelude.{
  ℕ, zero, suc, ◌≤◌, ◌<◌, ◌≡◌, refl, true, false, some, List, [], ◌∷◌, arith, get_elem?,
}
use parquet_interop.Prelude.Int.{ℤ, pos, negsuc, leb_ℤ}
use parquet_interop.Types.{kj, kg}
use parquet_interop.Read.Codes.{codes_width, index_bound, codes_width_lem}
use parquet_interop.Write.Pick.{
  Enc, delta, dict, probe, sample, distinct, cardinality, choose, pick_int, pick,
}
use parquet_interop.Write.Pick.Sorted.{IsSorted, is_dict, pick_int-sorted, pick_int-no-fault}

abbrev clock : List ℤ
clock = negsuc 4 ∷ pos 7 ∷ []

valid_at : (i : ℕ) (x : ℤ) → get_elem? clock i ≡ some x → probe kj x ≡ some x
unfolding probe
valid_at zero x h = ground (arith, h)
valid_at (suc zero) x h = ground (arith, h)
valid_at (suc (suc i)) x h = cc

ordered_at :
    (i j : ℕ) (x y : ℤ)
    → i ≤ j
    → get_elem? clock i ≡ some x
    → get_elem? clock j ≡ some y
    → leb_ℤ x y ≡ true
ordered_at zero zero x y le h g = ground (arith, h, g)
ordered_at zero (suc zero) x y le h g = ground (arith, h, g)
ordered_at (suc zero) (suc zero) x y le h g = ground (arith, h, g)
ordered_at (suc zero) zero x y le h g = absurd (omega arith)
ordered_at (suc (suc i)) j x y le h g = cc
ordered_at zero (suc (suc j)) x y le h g = cc
ordered_at (suc zero) (suc (suc j)) x y le h g = cc

clock-IsSorted : IsSorted kj clock
clock-IsSorted = record { no_null = valid_at; ordered = ordered_at }

sorted_clock : pick_int clock kj 2 false ≡ some delta
sorted_clock = pick_int-sorted clock kj false clock-IsSorted (omega arith)

sampled_rows :
    (e : Enc) × (pick_int (pos 3 ∷ pos 1 ∷ pos 2 ∷ []) kj 3 false ≡ some e)
    × (false ≡ false → is_dict e ≡ false)
sampled_rows = pick_int-no-fault (pos 3 ∷ pos 1 ∷ pos 2 ∷ []) kj false

-- Three distinct values, neither ascending nor descending.
shuffled : pick (pos 3 ∷ pos 1 ∷ pos 2 ∷ []) kj 3 true ≡ some dict
unfolding pick pick_int sample probe choose cardinality distinct
shuffled = refl

short_codes :
    (300 ≤ index_bound (codes_width 300))
    × (index_bound kg < index_bound (codes_width 300) → index_bound kg < 300)
short_codes = codes_width_lem 300 kg (omega arith)
