-- ===== src/Read/Patch/Shift.antt =====
-- src/read.rs, `patch`: on signed machine integers the closure `shift` never wraps.
use parquet_interop.Prelude.{
  ℕ, ◌<◌, ◌≡◌, refl, arith, ◌&&◌, if◌then◌else◌, true, false, Bool-cases, inl, inr, some, none, ap,
  ◌∙◌,
}
use parquet_interop.Prelude.Int.{
  ℤ, pos, negsuc, ◌+ℤ◌, ◌-ℤ◌, ◌*ℤ◌, eqb_ℤ, Fits, fits, null_of, wrap, wrap-Fits, +ℤ_parts, -ℤ_parts,
  int_laws, eq_of_parts,
}
use parquet_interop.Native.{NativeOps, int_ops}
use parquet_interop.Read.Patch.{rebase, shift}

-- What a stored value reads as, over the integers without bound: scaled by `mul` and moved back by
-- `s`, or null where the product or the difference leaves the type.
abbrev pub exact : ℕ → ℕ → ℤ → ℤ → ℤ
exact half s mul w =
    if fits half (w *ℤ mul) && fits half (w *ℤ mul -ℤ pos s)
    then w *ℤ mul -ℤ pos s
    else null_of half

pub *ℤ_one : (w : ℤ) → w *ℤ pos 1 ≡ w
unfolding ◌*ℤ◌
*ℤ_one (pos n) = ground arith
*ℤ_one (negsuc n) = ground arith

pub -ℤ_zero : (w : ℤ) → w -ℤ pos 0 ≡ w
-ℤ_zero w = omega int_laws

module _ {ℓ} {T : Type ℓ} (o : NativeOps T) (nullv sh mul w : T) where
  pub shift_unscaled : o.is_eq mul o.one ≡ true → shift o nullv sh mul w ≡ rebase o nullv sh w
  unfolding shift
  shift_unscaled e = rw (e, shift)

  pub shift_product :
      {v : T}
      → o.is_eq mul o.one ≡ false
      → o.mul_checked w mul ≡ some v
      → shift o nullv sh mul w ≡ rebase o nullv sh v
  unfolding shift
  shift_product e product = rw (e, product, shift)

  pub shift_overflow :
      o.is_eq mul o.one ≡ false → o.mul_checked w mul ≡ none → shift o nullv sh mul w ≡ nullv
  unfolding shift
  shift_overflow e over = rw (e, over, shift)

module _ (half s : ℕ) (small : s < half) where
  low_lem : wrap half (null_of half +ℤ pos s) ≡ null_of half +ℤ pos s
  low_lem = wrap-Fits half _ (unfold ◌+ℤ◌ in ground arith)

  -- The floor test lets through exactly the values whose shift stays in the type.
  pub rebase_exact :
      (v : ℤ)
      → Fits half v
      → rebase (int_ops half) (null_of half) (pos s) v
        ≡ (if fits half (v -ℤ pos s) then v -ℤ pos s else null_of half)
  unfolding rebase
  rebase_exact v fit = rw low_lem (
      ground (
        arith,
        wrap-Fits half (v -ℤ pos s),
        -ℤ_parts v (pos s),
        +ℤ_parts (null_of half) (pos s),
        eq_of_parts v (v -ℤ pos s),
      ))

  exact_of_Fits :
      (mul w v : ℤ)
      → w *ℤ mul ≡ v
      → Fits half v
      → rebase (int_ops half) (null_of half) (pos s) v ≡ exact half s mul w
  exact_of_Fits mul w v e fit = rw (rebase_exact v fit, e) (ground arith)

  checked_fits :
      (mul w : ℤ) → fits half (w *ℤ mul) ≡ true → (int_ops half).mul_checked w mul ≡ some (w *ℤ mul)
  checked_fits mul w ok = rw ok

  checked_overflow :
      (mul w : ℤ) → fits half (w *ℤ mul) ≡ false → (int_ops half).mul_checked w mul ≡ none
  checked_overflow mul w over = rw over

  exact_overflow : (mul w : ℤ) → fits half (w *ℤ mul) ≡ false → null_of half ≡ exact half s mul w
  exact_overflow mul w over = rw over

  -- `shift` is exact: no step of it wraps.
  pub shift-eq-exact :
      (mul w : ℤ)
      → Fits half w
      → shift (int_ops half) (null_of half) (pos s) mul w ≡ exact half s mul w
  shift-eq-exact mul w fit = elim (Bool-cases (eqb_ℤ mul (pos 1))) [
    | inl one ↦
        shift_unscaled (int_ops half) _ _ mul w one
        ∙ exact_of_Fits mul w w (ap (◌*ℤ◌ w) (eq_of_parts mul (pos 1) (ground arith)) ∙ *ℤ_one w)
            fit
    | inr scaled ↦ elim (Bool-cases (fits half (w *ℤ mul))) [
      | inl ok ↦
          shift_product (int_ops half) _ _ mul w scaled (checked_fits mul w ok)
          ∙ exact_of_Fits mul w (w *ℤ mul) refl (ground arith)
      | inr over ↦
          shift_overflow (int_ops half) _ _ mul w scaled (checked_overflow mul w over)
          ∙ exact_overflow mul w over
    ]
  ]
