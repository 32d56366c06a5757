-- ===== src/Meta/Stats/Bounds.antt =====
-- src/meta.rs, `put_stat`: a bound of a temporal column reads as the value itself does.
use parquet_interop.Prelude.{
  ℕ, zero, suc, ◌≡◌, refl, sym, ap, ◌∙◌, Bool, Option, none, some, List, [], ◌∷◌, set, arith,
}
use parquet_interop.Prelude.Int.{ℤ, pos, ◌*ℤ◌, Fits, null_of}
use parquet_interop.Types.{TimeUnit, timestamp, duration, date32, ns_per, kp, kd, kn}
use parquet_interop.Native.{int_ops}
use parquet_interop.Read.Patch.{shift}
use parquet_interop.Read.Patch.Shift.{exact, shift-eq-exact, *ℤ_one, -ℤ_zero}
use parquet_interop.Meta.Stats.{
  int_half, long_half, day2000, ns2000, checked_sub, to_ns, ValueStats, pick, Elements, Cell, int,
  long, stat_int32, stat_int64, null_cell, put, put_null, stat_cell, put_stat, ◌>>=◌,
}

-- The value of a bound: the null where there is none.
abbrev pub or_null : ℕ → Option ℤ → ℤ
or_null half none = null_of half
or_null half (some v) = v

day_exact :
    (v : ℤ)
    → Fits int_half v
    → or_null int_half (checked_sub int_half v day2000) ≡ exact int_half day2000 (pos 1) v
unfolding checked_sub
day_exact v fit = rw (*ℤ_one v) (ground arith)

time_exact :
    (u : TimeUnit) (v : ℤ)
    → or_null long_half (to_ns (timestamp u) v >>= λ w. checked_sub long_half w ns2000)
      ≡ exact long_half ns2000 (pos (ns_per u)) v
unfolding to_ns checked_sub
time_exact u v = ground arith

span_exact :
    (u : TimeUnit) (v : ℤ)
    → or_null long_half (to_ns (duration u) v) ≡ exact long_half 0 (pos (ns_per u)) v
unfolding to_ns
span_exact u v = rw (-ℤ_zero (v *ℤ pos (ns_per u))) (ground arith)

pub set_twice {ℓ} : {A : Type ℓ} (xs : List A) (i : ℕ) (a b : A) → set (set xs i a) i b ≡ set xs i b
set_twice [] i a b = refl
set_twice (x ∷ xs) zero a b = refl
set_twice (x ∷ xs) (suc i) a b = ap (◌∷◌ x) (set_twice xs i a b)

module _ (e : Elements) where
  -- The element written over the null of its type.
  put_over :
      (make : ℤ → Cell e) (half : ℕ) (r : Option ℤ) (col : List (Cell e)) (g : ℕ)
      → put e (r >>= λ v. some (make v)) (set col g (make (null_of half))) g
        ≡ set col g (make (or_null half r))
  put_over make half none col g = refl
  put_over make half (some v) col g = set_twice col g (make (null_of half)) (make v)

  bind_assoc {ℓ κ μ} :
      {A : Type ℓ} {B : Type κ} {C : Type μ} (m : Option A) (f : A → Option B) (k : B → Option C)
      → (m >>= λ a. f a >>= k) ≡ (m >>= f) >>= k
  bind_assoc none f k = refl
  bind_assoc (some a) f k = refl

  -- An exact bound of a date, timestamp or timespan column is written as what the reader makes of
  -- the same stored value: scaled to nanoseconds, moved to the host's epoch, and null where that
  -- leaves the type. The stored day `d` and time `v` are of their physical types.
  pub put_stat-eq-shift :
      (u : TimeUnit) (days times : ValueStats ℤ) (hi : Bool) (d v : ℤ) (col : List (Cell e)) (g : ℕ)
      → pick days hi ≡ some d
      → Fits int_half d
      → pick times hi ≡ some v
      → Fits long_half v
      → (put_stat e kd date32 (put_null e kd col g) g (stat_int32 days) hi
          ≡ set col g (int (shift (int_ops int_half) (null_of int_half) (pos day2000) (pos 1) d)))
        × (put_stat e kp (timestamp u) (put_null e kp col g) g (stat_int64 times) hi
            ≡ set col g (
                long
                  (shift (int_ops long_half) (null_of long_half) (pos ns2000) (pos (ns_per u)) v)))
        × (put_stat e kn (duration u) (put_null e kn col g) g (stat_int64 times) hi
            ≡ set col g
                (long (shift (int_ops long_half) (null_of long_half) (pos 0) (pos (ns_per u)) v)))
  unfolding put_stat put_null null_cell stat_cell
  put_stat-eq-shift u days times hi d v col g day day_fits time time_fits = (
    rw day (
        put_over int int_half (checked_sub int_half d day2000) col g
        ∙ ap (λ w. set col g (int w))
            (day_exact d day_fits
              ∙ sym (shift-eq-exact int_half day2000 (omega arith) (pos 1) d day_fits))),
    rw time (
        ap (λ r. put e r (set col g (long (null_of long_half))) g)
          (bind_assoc (to_ns (timestamp u) v) (λ w. checked_sub long_half w ns2000)
            (λ t. some (long t)))
        ∙ put_over long long_half (to_ns (timestamp u) v >>= λ w. checked_sub long_half w ns2000)
            col g
        ∙ ap (λ w. set col g (long w))
            (time_exact u v
              ∙ sym (shift-eq-exact long_half ns2000 (omega arith) (pos (ns_per u)) v time_fits))),
    rw time (
        put_over long long_half (to_ns (duration u) v) col g
        ∙ ap (λ w. set col g (long w))
            (span_exact u v
              ∙ sym (shift-eq-exact long_half 0 (omega arith) (pos (ns_per u)) v time_fits))),
  )
