-- ===== src/Tests/Decode.antt =====
-- src/read.rs: columns of a byte-wide integer type at concrete inputs.
use Prim.Native.String.{String}
use parquet_interop.Prelude.{
  ℕ, ◌≡◌, refl, false, Option, none, some, List, [], ◌∷◌, ◌++◌, map, arith, ok,
}
use parquet_interop.Prelude.Int.{ℤ, pos, negsuc, wrap, bits_of, of_bits, ◌+ℤ◌, ◌-ℤ◌}
use parquet_interop.Prelude.Bits.{bits}
use parquet_interop.Native.{int_ops}
use parquet_interop.Types.{
  utf8, timestamp, microsecond, phys_int64, raw_i64, width, ns_per, raw_of, arrow_type, l_type_of,
  ks,
}
use parquet_interop.Types.Laws.{IsUnit, l_type_of-arrow_type, raw_of-width}
use parquet_interop.Read.Nulls.{BitChunks, each_null}
use parquet_interop.Read.Nulls.Visit.{IsChunked, validity, at_nulls, each_null-eq-at_nulls}
use parquet_interop.Read.Patch.{rebase, shift, patch}
use parquet_interop.Read.Patch.Shift.{exact, shift-eq-exact}
use parquet_interop.Read.Patch.Spread.{Levels, row_value, patch_rows}
use parquet_interop.Read.Fill.{PrimArray, fill_prim}
use parquet_interop.Read.Fill.Rows.{
  end, null, value, Stands, read_row, SafeCast, fill_prim_rows, patch-eq-fill_prim,
}

abbrev half : ℕ
half = 128

abbrev i8_null : ℤ
i8_null = negsuc 127

abbrev three_rows : List (Option ℤ)
three_rows = some (pos 5) ∷ none ∷ some (negsuc 127) ∷ []

abbrev three_levels : List ℕ
three_levels = 1 ∷ 0 ∷ 1 ∷ []

-- The decoder's two values at the front, and whatever the host's vector held behind them.
abbrev packed_vector : List ℤ
packed_vector = pos 5 ∷ negsuc 127 ∷ pos 99 ∷ pos 98 ∷ []

three_levels-Levels : Levels 1 three_rows three_levels
three_levels-Levels = (refl, (λ e. omega arith, (refl, tt)))

patch_rows_example :
    patch (int_ops 128) i8_null (pos 2) (pos 1) packed_vector 3 2 (some three_levels) 1
    ≡ some (map (row_value (int_ops 128) i8_null (pos 2) (pos 1)) three_rows ++ (pos 98 ∷ []))
patch_rows_example =
    patch_rows (int_ops 128) i8_null (pos 2) (pos 1) 1 three_rows three_levels packed_vector
      three_levels-Levels (omega arith) refl

-- The value under the floor reads as null.
three_rows_read :
    map (row_value (int_ops 128) i8_null (pos 2) (pos 1)) three_rows
    ≡ pos 3 ∷ i8_null ∷ i8_null ∷ []
unfolding shift rebase wrap bits_of of_bits ◌+ℤ◌ ◌-ℤ◌
three_rows_read = refl

shift-eq-exact_example :
    shift (int_ops 128) i8_null (pos 2) (pos 10) (pos 12) ≡ exact 128 2 (pos 10) (pos 12)
shift-eq-exact_example =
    shift-eq-exact 128 2 (omega arith) (pos 10) (pos 12) (omega arith, omega arith)

-- One full word with rows 1 and 63 null, and three rows more, the last null.
abbrev chunked : BitChunks
chunked = record { words = 9223372036854775805 ∷ []; remainder_len = 3; remainder_bits = 3 }

chunked-IsChunked : IsChunked chunked
chunked-IsChunked = record {
  full = (omega arith, tt);
  partial_len = omega arith;
  partial = omega arith;
}

each_null-eq-at_nulls_example : each_null ◌∷◌ chunked [] ≡ at_nulls ◌∷◌ 0 (validity chunked) []
each_null-eq-at_nulls_example = each_null-eq-at_nulls ◌∷◌ chunked [] chunked-IsChunked

chunked_nulls : at_nulls ◌∷◌ 0 (validity chunked) [] ≡ 66 ∷ 63 ∷ 1 ∷ []
unfolding at_nulls bits
chunked_nulls = refl

-- Three rows with a null in the middle, as an Arrow array.
abbrev three_array : PrimArray ℤ
three_array = record {
  values = pos 5 ∷ pos 0 ∷ negsuc 127 ∷ [];
  nulls = some (record { words = []; remainder_len = 3; remainder_bits = 5 });
}

three_array-Stands : Stands three_rows three_array.values three_array.nulls
unfolding bits
three_array-Stands = (
  record { full = tt; partial_len = omega arith; partial = omega arith },
  value (pos 5) (null (pos 0) (value (negsuc 127) end)),
)

abbrev host_vector : List ℤ
host_vector = pos 70 ∷ pos 71 ∷ pos 72 ∷ pos 73 ∷ pos 98 ∷ []

fill_prim_rows_example :
    fill_prim (int_ops 128) i8_null (pos 2) (some three_array) host_vector 1
    ≡ ok (
        pos 70
        ∷ (map (read_row i8_null (rebase (int_ops 128) i8_null (pos 2))) three_rows
            ++ (pos 98 ∷ [])))
fill_prim_rows_example =
    fill_prim_rows (int_ops 128) i8_null (pos 2) three_array three_rows host_vector 1
      three_array-Stands (omega arith)

abbrev no_cast : Option ℤ → Option ℤ
no_cast r = r

no_cast-SafeCast : SafeCast (int_ops 128) i8_null (pos 2) (pos 1) no_cast
no_cast-SafeCast = (refl, λ v. refl)

patch-eq-fill_prim_example :
    (written : List ℤ) × (patch
        (int_ops 128)
        i8_null
        (pos 2)
        (pos 1)
        packed_vector
        3
        2
        (some three_levels)
        1
      ≡ some written)
    × (fill_prim (int_ops 128) i8_null (pos 2) (some three_array) host_vector 1
        ≡ ok (pos 70 ∷ written))
patch-eq-fill_prim_example =
    patch-eq-fill_prim (int_ops 128) i8_null (pos 2) (pos 1) no_cast three_rows three_array 1
      three_levels packed_vector host_vector 1 no_cast-SafeCast three_array-Stands (omega arith)
      three_levels-Levels (omega arith) refl refl

abbrev no_text : {A : Type 0} → A → String
no_text a = "?"

symbol_type_read_back : l_type_of no_text utf8 ≡ ok ks
symbol_type_read_back = l_type_of-arrow_type no_text no_text ks false utf8 arrow
  where
    arrow : arrow_type no_text ks false ≡ ok utf8
    arrow = unfold arrow_type in refl

raw_width_of_timestamp :
    (lt : ℕ) × (l_type_of no_text (timestamp microsecond) ≡ ok lt)
    × (width lt ≡ 8)
    × IsUnit (raw_i64 1_000)
raw_width_of_timestamp = raw_of-width no_text (timestamp microsecond) phys_int64 (raw_i64 1_000) raw
  where
    raw : raw_of (timestamp microsecond) phys_int64 ≡ some (raw_i64 1_000)
    raw = unfold raw_of ns_per in refl
