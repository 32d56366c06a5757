-- ===== src/Write/Ints.antt =====
-- src/write.rs, `col_to_arrow`: the columns of signed integers. `xs` are the task's rows.
pub mod Roundtrip
use parquet_interop.Prelude.{ℕ, ◌-◌, Bool, not, ◌&&◌, List}
use parquet_interop.Prelude.Int.{ℤ, pos, leb_ℤ, eqb_ℤ, null_of}
use parquet_interop.Native.{int_ops}
use parquet_interop.Write.Column.{PrimitiveArray, col_prim}

-- `|&x| x != NI` of KI and KT, and `|&x| x != NJ` of KJ and KN.
unfoldable pub is_valid : ℕ → ℤ → Bool
is_valid half x = not (eqb_ℤ x (null_of half))

-- The closures of KD and KP: the shifted value must not leave the type. `s` is DAY2000 or NS2000.
unfoldable pub is_valid_shifted : ℕ → ℕ → ℤ → Bool
is_valid_shifted half s x = not (eqb_ℤ x (null_of half)) && leb_ℤ x (pos (half - 1 - s))

-- KI, KJ, KT and KN.
unfoldable pub col_ints : ℕ → List ℤ → PrimitiveArray ℤ
unfolding is_valid
col_ints half xs = col_prim (int_ops half) (pos 0) (is_valid half) xs

-- KD and KP.
unfoldable pub col_moments : ℕ → ℕ → List ℤ → PrimitiveArray ℤ
unfolding is_valid_shifted
col_moments half s xs = col_prim (int_ops half) (pos s) (is_valid_shifted half s) xs
