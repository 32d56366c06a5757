-- ===== src/Tests/Bools.antt =====
-- src/read.rs and src/write.rs: Boolean columns at concrete inputs.
use parquet_interop.Prelude.{
  ℕ, ◌≡◌, refl, true, false, Bool, Option, none, some, List, [], ◌∷◌, arith, ok,
}
use parquet_interop.Prelude.Bits.{bits}
use parquet_interop.Read.Fill.Rows.{end, null, value, Stands}
use parquet_interop.Read.Fill.Bools.{
  BooleanArray, fill_bools, col_bools, fill_bools_rows, col_bools-fill_bools,
}

abbrev bool_rows : List (Option Bool)
bool_rows = some true ∷ none ∷ some false ∷ []

-- The null row has a 1 under it.
abbrev bool_array : BooleanArray
bool_array = record {
  values = true ∷ true ∷ false ∷ [];
  nulls = some (record { words = []; remainder_len = 3; remainder_bits = 5 });
}

bool_array-Stands : Stands bool_rows bool_array.values bool_array.nulls
unfolding bits
bool_array-Stands = (
  record { full = tt; partial_len = omega arith; partial = omega arith },
  value true (null true (value false end)),
)

abbrev byte_vector : List ℕ
byte_vector = 70 ∷ 71 ∷ 72 ∷ 73 ∷ 98 ∷ []

null_row_filled : fill_bools (some bool_array) byte_vector 1 ≡ ok (70 ∷ 1 ∷ 0 ∷ 0 ∷ 98 ∷ [])
null_row_filled = fill_bools_rows bool_array bool_rows byte_vector 1 bool_array-Stands (omega arith)

abbrev plain_bools : BooleanArray
plain_bools = record { values = true ∷ false ∷ true ∷ []; nulls = none }

plain_bools-Stands :
    Stands (some true ∷ some false ∷ some true ∷ []) plain_bools.values plain_bools.nulls
plain_bools-Stands = refl

col_bools-fill_bools_example :
    fill_bools (some plain_bools) byte_vector 1 ≡ ok (70 ∷ 1 ∷ 0 ∷ 1 ∷ 98 ∷ [])
unfolding col_bools
col_bools-fill_bools_example =
    col_bools-fill_bools (1 ∷ 0 ∷ 2 ∷ []) plain_bools byte_vector 1 plain_bools-Stands (omega arith)
