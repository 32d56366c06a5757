-- ===== src/Tests/Columns.antt =====
-- src/write.rs: columns of a byte-wide integer type at concrete inputs.
use parquet_interop.Prelude.{◌≡◌, refl, ◌↔◌, true, false, none, some, List, [], ◌∷◌, map, arith, ok}
use parquet_interop.Prelude.Int.{ℤ, pos, negsuc, wrap, bits_of, of_bits, ◌+ℤ◌}
use parquet_interop.Prelude.Bits.{bits}
use parquet_interop.Native.{int_ops}
use parquet_interop.Read.Fill.{PrimArray, fill_prim}
use parquet_interop.Read.Fill.Rows.{end, null, value, Stands}
use parquet_interop.Write.Column.{
  full_word, null_buffer, chunks, chunk_word, scan, null_bits, shift_chunk, shift_scan, col_prim,
}
use parquet_interop.Write.Column.Pack.{every}
use parquet_interop.Write.Column.Bitmap.{valid_rows, null_bits_lem, col_prim_lem}
use parquet_interop.Write.Ints.{is_valid, is_valid_shifted, col_ints, col_moments}
use parquet_interop.Write.Ints.Roundtrip.{array_rows, col_ints-fill_prim, col_moments-fill_prim}

-- A null, and a value that a shift by 2 moves out of the type.
abbrev host_column : List ℤ
host_column = pos 5 ∷ negsuc 127 ∷ pos 126 ∷ []

host_column_word : null_bits (is_valid 128) host_column ≡ some (record { words = 5 ∷ []; len = 3 })
unfolding null_bits scan chunks chunk_word null_buffer full_word is_valid
host_column_word = refl

null_bits_of_rows :
    (valid_rows 3 (null_bits (is_valid 128) host_column) ≡ true ∷ false ∷ true ∷ [])
    × ((null_bits (is_valid 128) host_column ≡ none) ↔ (every (true ∷ false ∷ true ∷ []) ≡ true))
unfolding is_valid
null_bits_of_rows = null_bits_lem (is_valid 128) host_column

col_prim_lem_example :
    col_prim (int_ops 128) (pos 2) (is_valid_shifted 128 2) host_column ≡ record {
      values = map (λ x. (int_ops 128).add_wrapping x (pos 2)) host_column;
      nulls = null_bits (is_valid_shifted 128 2) host_column;
    }
col_prim_lem_example = col_prim_lem (int_ops 128) (pos 2) (is_valid_shifted 128 2) host_column

-- What the file gives back for the shifted column: 7, and two nulls.
abbrev moments_read : PrimArray ℤ
moments_read = record {
  values = pos 7 ∷ pos 0 ∷ pos 0 ∷ [];
  nulls = some (record { words = []; remainder_len = 3; remainder_bits = 1 });
}

moments_read-Stands :
    Stands (array_rows (col_moments 128 2 host_column)) moments_read.values moments_read.nulls
unfolding col_moments is_valid_shifted col_prim shift_scan shift_chunk chunks null_buffer full_word
    valid_rows bits wrap bits_of of_bits ◌+ℤ◌
moments_read-Stands = (
  record { full = tt; partial_len = omega arith; partial = omega arith },
  value (pos 7) (null (pos 0) (null (pos 0) end)),
)

abbrev host_rows : List ℤ
host_rows = pos 70 ∷ pos 71 ∷ pos 72 ∷ pos 73 ∷ pos 98 ∷ []

col_moments-fill_prim_example :
    fill_prim (int_ops 128) (negsuc 127) (pos 2) (some moments_read) host_rows 1
    ≡ ok (pos 70 ∷ pos 5 ∷ negsuc 127 ∷ negsuc 127 ∷ pos 98 ∷ [])
col_moments-fill_prim_example =
    col_moments-fill_prim 128 2 (omega arith) host_column moments_read host_rows 1
      ((omega arith, omega arith), ((omega arith, omega arith), ((omega arith, omega arith), tt)))
      moments_read-Stands (omega arith)

abbrev ints_read : PrimArray ℤ
ints_read = record {
  values = pos 5 ∷ pos 0 ∷ pos 126 ∷ [];
  nulls = some (record { words = []; remainder_len = 3; remainder_bits = 5 });
}

ints_read-Stands : Stands (array_rows (col_ints 128 host_column)) ints_read.values ints_read.nulls
unfolding col_ints is_valid col_prim null_bits scan chunk_word chunks null_buffer full_word
    valid_rows bits
ints_read-Stands = (
  record { full = tt; partial_len = omega arith; partial = omega arith },
  value (pos 5) (null (pos 0) (value (pos 126) end)),
)

col_ints-fill_prim_example :
    fill_prim (int_ops 128) (negsuc 127) (pos 0) (some ints_read) host_rows 1
    ≡ ok (pos 70 ∷ pos 5 ∷ negsuc 127 ∷ pos 126 ∷ pos 98 ∷ [])
col_ints-fill_prim_example =
    col_ints-fill_prim 128 host_column ints_read host_rows 1
      ((omega arith, omega arith), ((omega arith, omega arith), ((omega arith, omega arith), tt)))
      ints_read-Stands (omega arith) (omega arith)
