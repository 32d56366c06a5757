-- ===== src/Host.antt =====
-- src/ffi.rs: tagged values of the host, and the integral atoms.
pub mod Atoms
use Prim.Native.Nat.{bit_xor}
use parquet_interop.Prelude.{
  ℕ, ◌+◌, ◌-◌, ◌*◌, ◌/◌, ◌%◌, ◌^◌, Bool, ◌||◌, Option, none, some, ◌==◌, if◌then◌else◌,
}
use parquet_interop.Prelude.Int.{ℤ, pos, negsuc, ◌-ℤ◌, bits_of, of_bits, wrap}
use parquet_interop.Types.{kh, ki, kj, kf, kp, kz, kn as kn_tag}

-- The tag of an inline long.
abbrev pub kjl : ℕ
kjl = 39

-- What the program reads of the host's heap: the subtype and the element count of an object, and
-- the eight bytes of a cell, by payload address.
pub record Heap : Type 0 where
  pub subtype : ℕ → ℤ
  pub count : ℕ → ℤ
  pub cell : ℕ → ℤ

-- `x >> TAG_SHIFT`
abbrev pub vtag : ℕ → ℕ
vtag x = x / 2 ^ 58

-- `x & PTR_MASK`: the low 58 bits.
abbrev pub va : ℕ → ℕ
va x = x % 2 ^ 58

-- `as u32 as i32` and `as u16 as i16`: the low bits, with their own sign.
abbrev pub narrow : ℕ → ℤ → ℤ
narrow half v = of_bits half (bits_of (2 ^ 63) v % (2 * half))

module _ (heap : Heap) where
  abbrev pub vt : ℕ → ℤ
  vt x = heap.subtype (va x)

  abbrev pub vn : ℕ → ℤ
  vn x = heap.count (va x)

  -- The signed type: minus the tag of an atom, the subtype of a heap object.
  unfoldable pub kt : ℕ → ℤ
  kt x =
      if vtag x == kjl then pos 0 -ℤ pos kj else if vtag x == 0 then vt x else pos 0 -ℤ pos (vtag x)

  -- `((x & PTR_MASK) ^ HALF) as i64` less `HALF`, wrapping, for an inline long; the heap cell of a
  -- wide atom; and the low 58 bits of any other.
  unfoldable pub kjv : ℕ → ℤ
  kjv x =
      let t = vtag x in
      if t == kjl
      then wrap (2 ^ 63) (pos (bit_xor (va x) (2 ^ 57)) -ℤ pos (2 ^ 57))
      else if t == kj || t == kf || t == kz || t == kp || t == kn_tag
      then heap.cell (va x)
      else pos (va x)

  unfoldable pub atom_i64 : ℕ → Option ℤ
  unfolding kjv
  atom_i64 x =
      let t = vtag x in
      if t == kjl || t == kj
      then some (kjv x)
      else if t == ki
      then some (narrow (2 ^ 31) (kjv x))
      else if t == kh
      then some (narrow (2 ^ 15) (kjv x))
      else none

  -- The element count, an atom counting as one.
  unfoldable pub kn : ℕ → ℤ
  kn x = if vtag x == 0 then vn x else pos 1
