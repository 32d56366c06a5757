-- ===== src/Native.antt =====
-- Arrow's `ArrowNativeTypeOp`, the operations on a column's elements that src/read.rs and
-- src/write.rs are generic in, as an interface; and the instance of the signed machine integers.
use parquet_interop.Prelude.{ℕ, Bool, Option, none, some, if◌then◌else◌}
use parquet_interop.Prelude.Int.{ℤ, pos, ◌+ℤ◌, ◌-ℤ◌, ◌*ℤ◌, ltb_ℤ, eqb_ℤ, fits, wrap}

pub record NativeOps {ℓ} (T : Type ℓ) : Type ℓ where
  pub one : T
  pub is_zero : T → Bool
  pub is_eq : T → T → Bool
  pub is_lt : T → T → Bool
  pub add_wrapping : T → T → T
  pub sub_wrapping : T → T → T
  pub mul_checked : T → T → Option T

-- The integers of -half to half - 1: i32 at 2 ^ 31, i64 at 2 ^ 63.
abbrev pub int_ops : ℕ → NativeOps ℤ
int_ops half = record {
  one = pos 1;
  is_zero = λ a. eqb_ℤ a (pos 0);
  is_eq = eqb_ℤ;
  is_lt = ltb_ℤ;
  add_wrapping = λ a b. wrap half (a +ℤ b);
  sub_wrapping = λ a b. wrap half (a -ℤ b);
  mul_checked = λ a b. if fits half (a *ℤ b) then some (a *ℤ b) else none;
}
