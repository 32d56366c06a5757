-- ===== src/Write/Column.antt =====
-- src/write.rs, `null_bits` and `col_prim`: a host vector as an Arrow array, with the validity
-- bitmap that its null values imply.
pub mod Pack
pub mod Bitmap
use Prim.Native.Nat.{bit_or}
use parquet_interop.Prelude.{
  ℕ, zero, suc, ◌-◌, ◌*◌, ◌/◌, ◌^◌, Bool, true, false, not, ◌||◌, Option, none, some, List, [], ◌∷◌,
  ◌++◌, ◌==◌, if◌then◌else◌, length, take, drop,
}
use parquet_interop.Native.{NativeOps}

-- Arrow's `NullBuffer` over a `BooleanBuffer` at offset 0.
pub record NullBuffer : Type 0 where
  pub words : List ℕ
  pub len : ℕ

-- Arrow's `PrimitiveArray`.
pub record PrimitiveArray {ℓ} (T : Type ℓ) : Type ℓ where
  pub values : List T
  pub nulls : Option NullBuffer

-- `bool as u64`
abbrev pub as_word : Bool → ℕ
as_word false = 0
as_word true = 1

-- `!0u64 >> (64 - c.len())`
unfoldable pub full_word : ℕ → ℕ
full_word n = (2 ^ 64 - 1) / 2 ^ (64 - n)

-- The buffer of words, when it was noted that one of them has a null.
unfoldable pub null_buffer : ℕ → Bool × List ℕ → Option NullBuffer
null_buffer n (nulls, bits) = if nulls then some (record { words = bits; len = n }) else none

module _ {ℓ} {T : Type ℓ} where
  -- `s.chunks(64)`, on fuel: a chunk has an element at least, so the length of `s` is enough.
  unfoldable pub chunks : ℕ → List T → List (List T)
  chunks zero s = []
  chunks (suc fuel) [] = []
  chunks (suc fuel) (x ∷ s) = take 64 (x ∷ s) ∷ chunks fuel (drop 64 (x ∷ s))

module _ {ℓ} {T : Type ℓ} (valid : T → Bool) where
  -- The inner loop: the bits from place `i` on. `bit << i` is below 2 ^ 64, since `i` is below 64.
  unfoldable pub chunk_word : List T → ℕ → ℕ → ℕ
  chunk_word [] i w = w
  chunk_word (x ∷ c) i w = chunk_word c (suc i) (bit_or w (as_word (valid x) * 2 ^ i))

  -- The outer loop, on `nulls` and `bits`.
  unfoldable pub scan : List (List T) → Bool × List ℕ → Bool × List ℕ
  unfolding chunk_word full_word
  scan [] st = st
  scan (c ∷ cs) (nulls, bits) =
      let w = chunk_word c 0 0 in
      scan cs (nulls || not (w == full_word (length c)), bits ++ (w ∷ []))

  unfoldable pub null_bits : List T → Option NullBuffer
  unfolding scan chunks null_buffer
  null_bits s = null_buffer (length s) (scan (chunks (length s) s) (false, []))

module _ {ℓ} {T : Type ℓ} (o : NativeOps T) (sh : T) (valid : T → Bool) where
  -- The inner loop of the shifted pass: `w` and `v`.
  unfoldable pub shift_chunk : List T → ℕ → ℕ → List T → ℕ × List T
  shift_chunk [] i w v = (w, v)
  shift_chunk (x ∷ c) i w v =
      shift_chunk c (suc i) (bit_or w (as_word (valid x) * 2 ^ i)) (v ++ (o.add_wrapping x sh ∷ []))

  -- The outer loop of the shifted pass: `nulls` and `bits`, and `v`.
  unfoldable pub shift_scan : List (List T) → Bool × List ℕ → List T → (Bool × List ℕ) × List T
  unfolding shift_chunk full_word
  shift_scan [] st v = (st, v)
  shift_scan (c ∷ cs) (nulls, bits) v =
      let r = shift_chunk c 0 0 v in
      shift_scan cs (nulls || not (r.0 == full_word (length c)), bits ++ (r.0 ∷ [])) (r.1)

  -- `s` is the host vector.
  unfoldable pub col_prim : List T → PrimitiveArray T
  unfolding shift_scan chunks null_buffer null_bits
  col_prim s =
      let r = shift_scan (chunks (length s) s) (false, []) [] in
      if o.is_zero sh
      then record { values = s; nulls = null_bits valid s }
      else record { values = r.1; nulls = null_buffer (length s) (r.0) }
