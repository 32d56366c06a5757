-- ===== src/Stream.antt =====
-- src/stream.rs: the column files of a splayed table. A file is its bytes and the place where the
-- next write goes; the calls that fail are left out.
pub mod Layout
use parquet_interop.Prelude.{
  ℕ, zero, suc, ◌+◌, ◌/◌, ◌%◌, ◌^◌, Bool, true, false, List, [], ◌∷◌, ◌++◌, length, replicate, take,
  drop, ◌==◌, if◌then◌else◌,
}
use parquet_interop.Types.{ks}
use parquet_interop.Read.Symbols.{Bytes}

-- `to_le_bytes`, of `k` bytes.
abbrev pub le_bytes : ℕ → ℕ → Bytes
le_bytes zero n = []
le_bytes (suc k) n = n % 256 ∷ le_bytes k (n / 256)

-- An open `File`.
pub record File : Type 0 where
  pub bytes : Bytes
  pub place : ℕ

-- `File::create`, `seek` and `write_all`.
unfoldable pub create : File
create = record { bytes = []; place = 0 }

unfoldable pub seek : ℕ → File → File
seek n f = record f { place = n }

unfoldable pub write_all : Bytes → File → File
write_all b f = record {
  bytes = take f.place f.bytes ++ (b ++ drop (f.place + length b) f.bytes);
  place = f.place + length b;
}

unfoldable pub hdr_fixed : ℕ → File → File
unfolding write_all
hdr_fixed lt f = write_all (replicate 4 0 ++ (le_bytes 2 lt ++ replicate 26 0)) f

unfoldable pub hdr_syms : ℕ → File → File
unfolding write_all
hdr_syms n f = write_all (0xff ∷ 0x01 ∷ (le_bytes 2 ks ++ le_bytes 4 (n % 2 ^ 32))) f

unfoldable pub patch_count : Bool → ℕ → File → File
unfolding write_all seek
patch_count true n f = write_all (le_bytes 4 (n % 2 ^ 32)) (seek 4 f)
patch_count false n f = write_all (le_bytes 8 (n % 2 ^ 64)) (seek 8 f)

-- A chunk: the bytes of its symbols or of its elements.
pub data Chunk : Type 0 where
  symbols : List Bytes → Chunk
  elements : Bytes → Chunk

-- The loop over the symbols, each with its NUL.
unfoldable pub append_symbols : List Bytes → File → File
unfolding write_all
append_symbols [] f = f
append_symbols (s ∷ ss) f = append_symbols ss (write_all (s ++ (0 ∷ [])) f)

unfoldable pub append_chunk : Chunk → File → File
unfolding append_symbols write_all
append_chunk (symbols ss) f = append_symbols ss f
append_chunk (elements b) f = write_all b f

unfoldable pub append_chunks : List Chunk → File → File
unfolding append_chunk
append_chunks [] f = f
append_chunks (c ∷ cs) f = append_chunks cs (append_chunk c f)

-- What `stream_table` does with the file of a column: the header, the chunks and the count.
unfoldable pub column_file : ℕ → List Chunk → ℕ → Bytes
unfolding create hdr_syms hdr_fixed append_chunks patch_count
column_file lt chunks total =
    let begun = if lt == ks then hdr_syms 0 create else hdr_fixed lt create in
    (patch_count (lt == ks) total (append_chunks chunks begun)).bytes
