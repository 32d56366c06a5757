-- ===== src/Read/Nulls.antt =====
-- src/read.rs, `each_null`: the null rows of a batch, from the validity bitmap a word at a time.
pub mod Visit
use Prim.Native.Nat.{bit_and}
use parquet_interop.Prelude.{
  ℕ, zero, suc, ◌+◌, ◌-◌, ◌/◌, ◌%◌, ◌^◌, Bool, true, false, List, [], ◌∷◌, ltb, ◌==◌, if◌then◌else◌,
}

-- What arrow's `bit_chunks` gives for a validity bitmap: its full words of 64 bits, the lowest bit
-- first, and what is left of it.
pub record BitChunks : Type 0 where
  pub words : List ℕ
  pub remainder_len : ℕ
  pub remainder_bits : ℕ

-- `u64::trailing_zeros`, with a round for each bit.
pub count_zeros : ℕ → ℕ → ℕ
count_zeros zero x = 0
count_zeros (suc k) x = if x % 2 == 1 then 0 else suc (count_zeros k (x / 2))

abbrev pub trailing_zeros : ℕ → ℕ
trailing_zeros x = count_zeros 64 x

-- `!w` on a word.
abbrev pub complement : ℕ → ℕ
complement w = 2 ^ 64 - 1 - w

-- The callback `f` works on a state.
module _ {ℓ} {S : Type ℓ} (f : ℕ → S → S) where
  -- `while inv != 0`. Each round clears a bit, so 64 rounds are enough.
  unfoldable pub visit_bits : ℕ → ℕ → ℕ → S → S
  visit_bits zero base inv s = s
  visit_bits (suc fuel) base inv s =
      let rest = visit_bits fuel base (bit_and inv (inv - 1)) (f (base + trailing_zeros inv) s) in
      if inv == 0 then s else rest

  -- `for w in bc.iter()`: the base behind the last word, and the state.
  unfoldable pub visit_words : ℕ → List ℕ → S → ℕ × S
  visit_words base [] s = (base, s)
  visit_words base (w ∷ ws) s = visit_words (base + 64) ws (visit_bits 64 base (complement w) s)

  -- `if rl > 0`
  unfoldable pub visit_rest : BitChunks → ℕ × S → S
  visit_rest bc (base, s) =
      if ltb 0 bc.remainder_len
      then visit_bits 64 base (bit_and (complement bc.remainder_bits) (2 ^ bc.remainder_len - 1)) s
      else s

  unfoldable pub each_null : BitChunks → S → S
  each_null bc s = visit_rest bc (visit_words 0 bc.words s)
