-- ===== src/Host/Atoms.antt =====
-- src/ffi.rs: `atom_i64` reads back every integral atom that the host can build.
use Prim.Native.Nat.{bit_xor}
use native.Mathlib.Nat.{mod-lt, mod-eq_of_lt}
use parquet_interop.Prelude.{
  ℕ, ◌+◌, ◌-◌, ◌*◌, ◌/◌, ◌%◌, ◌^◌, ◌≤◌, ◌<◌, ◌≡◌, ap, ◌∙◌, arith, some, ltb, if◌then◌else◌,
}
use parquet_interop.Prelude.Bits.{bit_xor_top}
use parquet_interop.Prelude.Int.{
  ℤ, pos, negsuc, Fits, bits_of, of_bits, wrap, wrap-Fits, ◌-ℤ◌, -ℤ_parts, eq_of_parts,
}
use parquet_interop.Types.{kh, ki, kj}
use parquet_interop.Host.{kjl, Heap, kjv, narrow, atom_i64}

-- An inline long: the value's low 58 bits under the tag.
abbrev pub inline_long : ℤ → ℕ
inline_long (pos n) = kjl * 2 ^ 58 + n
inline_long (negsuc n) = kjl * 2 ^ 58 + (2 ^ 58 - 1 - n)

-- A narrow atom: the value's bits, in its own width, under the tag.
abbrev pub narrow_atom : ℕ → ℕ → ℤ → ℕ
narrow_atom tag half v = tag * 2 ^ 58 + bits_of half v

-- The sign of an inline long is its 58th bit.
inline_sign :
    (m : ℕ) (v : ℤ)
    → m < 2 ^ 58
    → v ≡ (if ltb m (2 ^ 57) then pos m else negsuc (2 ^ 58 - 1 - m))
    → wrap (2 ^ 63) (pos (bit_xor m (2 ^ 57)) -ℤ pos (2 ^ 57)) ≡ v
inline_sign m v small is =
    let flip = bit_xor_top 57 m small in
    let d = pos (bit_xor m (2 ^ 57)) -ℤ pos (2 ^ 57) in
    let parts = -ℤ_parts (pos (bit_xor m (2 ^ 57))) (pos (2 ^ 57)) in
    let value : d ≡ v = eq_of_parts d v (ground (arith, flip, parts)) in
    wrap-Fits (2 ^ 63) d (ground (arith, flip, parts)) ∙ value

of_bits-bits_of : (half : ℕ) (v : ℤ) → Fits half v → of_bits half (bits_of half v) ≡ v
unfolding wrap
of_bits-bits_of half v h = wrap-Fits half v h

bits_of-lt : (half : ℕ) (v : ℤ) → 0 < half → bits_of half v < 2 * half
unfolding bits_of
bits_of-lt half (pos n) h = mod-lt n {m = 2 * half} (omega arith)
bits_of-lt half (negsuc n) h = omega arith

narrow_lem :
    (half : ℕ) (v : ℤ)
    → 0 < half
    → half ≤ 2 ^ 63
    → Fits half v
    → narrow half (pos (bits_of half v)) ≡ v
narrow_lem half v some_bits wide fits =
    let small = bits_of-lt half v some_bits in
    let word : bits_of (2 ^ 63) (pos (bits_of half v)) ≡ bits_of half v =
      unfold bits_of in mod-eq_of_lt {n = bits_of half v} {m = 2 ^ 64} (omega arith) in
    let low : bits_of half v % (2 * half) ≡ bits_of half v =
      mod-eq_of_lt {n = bits_of half v} {m = 2 * half} small in
    rw (word, low) (of_bits-bits_of half v fits)

module _ (heap : Heap) where
  inline_long_lem : (v : ℤ) → Fits (2 ^ 57) v → atom_i64 heap (inline_long v) ≡ some v
  unfolding atom_i64 kjv
  inline_long_lem (pos n) h =
      let tag : (39 * 2 ^ 58 + n) / 2 ^ 58 ≡ 39 = omega arith in
      let low : (39 * 2 ^ 58 + n) % 2 ^ 58 ≡ n = omega arith in
      rw (tag, low) (ap some (inline_sign n (pos n) (omega arith) (ground arith)))
  inline_long_lem (negsuc n) h =
      let m = 2 ^ 58 - 1 - n in
      let tag : (39 * 2 ^ 58 + m) / 2 ^ 58 ≡ 39 = omega arith in
      let low : (39 * 2 ^ 58 + m) % 2 ^ 58 ≡ m = omega arith in
      rw (tag, low) (ap some (inline_sign m (negsuc n) (omega arith) (ground arith)))

  int_lem : (v : ℤ) → Fits (2 ^ 31) v → atom_i64 heap (narrow_atom ki (2 ^ 31) v) ≡ some v
  unfolding atom_i64 kjv
  int_lem v fits =
      let small = bits_of-lt (2 ^ 31) v (omega arith) in
      let tag : (6 * 2 ^ 58 + bits_of (2 ^ 31) v) / 2 ^ 58 ≡ 6 = omega arith in
      let low : (6 * 2 ^ 58 + bits_of (2 ^ 31) v) % 2 ^ 58 ≡ bits_of (2 ^ 31) v = omega arith in
      rw (tag, low) (ap some (narrow_lem (2 ^ 31) v (omega arith) (omega arith) fits))

  short_lem : (v : ℤ) → Fits (2 ^ 15) v → atom_i64 heap (narrow_atom kh (2 ^ 15) v) ≡ some v
  unfolding atom_i64 kjv
  short_lem v fits =
      let small = bits_of-lt (2 ^ 15) v (omega arith) in
      let tag : (5 * 2 ^ 58 + bits_of (2 ^ 15) v) / 2 ^ 58 ≡ 5 = omega arith in
      let low : (5 * 2 ^ 58 + bits_of (2 ^ 15) v) % 2 ^ 58 ≡ bits_of (2 ^ 15) v = omega arith in
      rw (tag, low) (ap some (narrow_lem (2 ^ 15) v (omega arith) (omega arith) fits))

  cell_lem :
      (address : ℕ)
      → address < 2 ^ 58
      → atom_i64 heap (kj * 2 ^ 58 + address) ≡ some (heap.cell address)
  unfolding atom_i64 kjv
  cell_lem address small =
      let tag : (7 * 2 ^ 58 + address) / 2 ^ 58 ≡ 7 = omega arith in
      let low : (7 * 2 ^ 58 + address) % 2 ^ 58 ≡ address = omega arith in rw (tag, low)

  -- `atom_i64` answers the value of every integral atom, its sign included: an inline long `v` of 58
  -- bits, a long in a cell of the heap, an int `n` and a short `h`.
  pub atom_i64_lem :
      (v n h : ℤ) (address : ℕ)
      → Fits (2 ^ 57) v
      → address < 2 ^ 58
      → Fits (2 ^ 31) n
      → Fits (2 ^ 15) h
      → (atom_i64 heap (inline_long v) ≡ some v)
        × (atom_i64 heap (kj * 2 ^ 58 + address) ≡ some (heap.cell address))
        × (atom_i64 heap (narrow_atom ki (2 ^ 31) n) ≡ some n)
        × (atom_i64 heap (narrow_atom kh (2 ^ 15) h) ≡ some h)
  atom_i64_lem v n h address v_fits small n_fits h_fits =
      (inline_long_lem v v_fits, cell_lem address small, int_lem n n_fits, short_lem h h_fits)
