-- ===== src/Read/Patch.antt =====
pub mod Shift
pub mod Spread
-- src/read.rs, `patch`: the values that a page decoder packed at the front of a host vector are
-- spread over their rows, scaled to nanoseconds, null-filled and epoch-shifted in place.
use parquet_interop.Prelude.{
  ℕ, zero, suc, ◌-◌, Bool, not, ◌&&◌, ◌||◌, Option, none, some, List, ◌++◌, map, ltb, leb, ◌==◌,
  true, false, if◌then◌else◌, length, get_elem?, set, take, drop,
}
use parquet_interop.Native.{NativeOps}

module _ {ℓ} {T : Type ℓ} (o : NativeOps T) (nullv sh : T) where
  -- The second half of the closure `shift`: the epoch shift, null where it would wrap.
  unfoldable pub rebase : T → T
  rebase w =
      if o.is_zero sh
      then w
      else if o.is_lt w (o.add_wrapping nullv sh)
      then nullv
      else o.sub_wrapping w sh

module _ {ℓ} {T : Type ℓ} (o : NativeOps T) (nullv sh mul : T) where
  -- The closure `shift`: the multiply by the unit scale is checked, and null on overflow.
  unfoldable pub shift : T → T
  unfolding rebase
  shift w = elim (if o.is_eq mul o.one then some w else o.mul_checked w mul) [
    | none ↦ nullv
    | some v ↦ rebase o nullv sh v
  ]

  -- The loop `for i in (0..n).rev()`, with `i` rows left and `vp` values left. `none` is a fault: a
  -- level or a value past the end of its buffer, or `vp` below zero.
  unfoldable pub spread : List ℕ → ℕ → ℕ → ℕ → List T → Option (List T)
  spread dl maxdef zero vp d = some d
  spread dl maxdef (suc i) vp d = elim (get_elem? dl i) [
    | none ↦ none
    | some level ↦ elim (level == maxdef) [
      | false ↦ spread dl maxdef i vp (set d i nullv)
      | true ↦ elim (ltb 0 vp) [
        | false ↦ none
        | true ↦ elim (get_elem? d (vp - 1)) [
          | none ↦ none
          | some v ↦ spread dl maxdef i (vp - 1) (set d i (shift v))
        ]
      ]
    ]
  ]

  -- `shift` over the first `n` elements.
  unfoldable pub shift_all : ℕ → List T → List T
  unfolding shift
  shift_all n d =
      if not (o.is_zero sh) || not (o.is_eq mul o.one) then map shift (take n d) ++ drop n d else d

  -- `d` is the host vector from the first row on. `defs` are the definition levels, absent where
  -- the column cannot be null.
  unfoldable pub patch : List T → ℕ → ℕ → Option (List ℕ) → ℕ → Option (List T)
  unfolding spread shift_all
  patch d n vals none maxdef = some (shift_all n d)
  patch d n vals (some dl) maxdef =
      let spreads = spread dl maxdef n vals d in
      if ltb vals n && leb n (length dl) then spreads else some (shift_all n d)
