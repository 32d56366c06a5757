-- ===== src/Tests/Files.antt =====
-- src/stream.rs: a file of two chunks of a column of bytes, and one of symbols.
use parquet_interop.Prelude.{◌≡◌, refl, List, [], ◌∷◌, ◌==◌}
use parquet_interop.Types.{kg, ks}
use parquet_interop.Stream.{
  Chunk, symbols, elements, create, seek, write_all, hdr_syms, patch_count, append_symbols,
  append_chunk, append_chunks, column_file,
}
use parquet_interop.Stream.Layout.{layout, column_file-layout}

abbrev bytes_chunks : List Chunk
bytes_chunks = elements (7 ∷ 8 ∷ []) ∷ elements (9 ∷ []) ∷ []

column_file-layout_example : column_file kg bytes_chunks 3 ≡ layout (kg == ks) kg 3 (7 ∷ 8 ∷ 9 ∷ [])
column_file-layout_example = column_file-layout kg bytes_chunks 3

symbols_file :
    column_file ks (symbols ((97 ∷ []) ∷ [] ∷ []) ∷ []) 2
    ≡ 0xff ∷ 0x01 ∷ 11 ∷ 0 ∷ 2 ∷ 0 ∷ 0 ∷ 0 ∷ 97 ∷ 0 ∷ 0 ∷ []
unfolding column_file hdr_syms create append_chunks append_chunk append_symbols patch_count seek
    write_all
symbols_file = refl
