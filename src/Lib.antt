-- ===== src/Lib.antt =====
-- The Parquet reader and writer for L (`l-parquet`), a library that the host binds with `2:`: the
-- reader decodes the row groups of a set of Parquet files straight into host vectors, the writer
-- encodes a host table, and both go through the arrow and parquet crates for the format itself.
--
-- The parts of the program and the files that model them:
--   * Types.antt: the host's type tags and widths (src/ffi.rs) and the maps between them and the
--     Arrow and Parquet types (`l_type_of`, `ns_per`, `raw_of` of src/read.rs, `arrow_type` of
--     src/write.rs). Types/Laws.antt compares the two directions.
--   * Native.antt: the arithmetic of column elements, as the interface that src/read.rs is generic
--     in (`ArrowNativeTypeOp`); its instance is the signed machine integers of Prelude/Int.antt,
--     with every wrap written out.
--   * Mru.antt: lists kept by recent use, which three caches of the program are.
--   * Meta/Leaf.antt: `leaf_map` of src/meta.rs, from root columns to leaf columns.
--   * Meta/Footers.antt: the footer of a file (`load`, `dict_hint`) and the cache of footers
--     (`FOOTERS`). The file's content and the parquet crate's parser are the interface `FooterLib`.
--     Meta/Footers/Loads.antt: any number of calls of `load` over the one cache. A step is one hold
--     of the lock or one parse outside of it, so that calls may miss, parse and store a file side by
--     side; a hold that the lock refuses does nothing.
--   * Meta/Open.antt: `open`, the set of files and the table that they agree on, and `enc_of`.
--   * Meta/Stats.antt: the bounds that `pq_meta` reports for each row group (`stats_of`,
--     `put_null`, `put_stat`).
--   * Read/Patch.antt: `patch` of src/read.rs, the pass behind the zero-copy decode. A host vector
--     is the list of its elements; an access outside of it is a fault.
--   * Read/Nulls.antt: `each_null`, over the words of a validity bitmap.
--   * Read/Fill.antt: `fill_prim`, the copy of a decoded Arrow batch into a host vector;
--     Read/Fill/Bools.antt: the Boolean columns, read and written.
--   * Read/Symbols.antt: `SymCache`, the cache of interned symbols, with its memo of dictionaries,
--     and the columns filled through it (`fill_sym_dict`, `fill_sym_plain`). The host's intern
--     table and Arrow's arrays are the interfaces `Host` and `Arrays`.
--   * Read/Window.antt: the layout of a read: its window of row groups and their rows (`read`), the
--     column parts (`split`) and the tasks that the workers claim.
--   * Read/Select.antt: `select`, the columns of a read and which of them are zero-copy.
--   * Pool.antt: the worker threads of the library (src/pool.rs): `run`, `serve` and their lock
--     sections; Pool/Threads.antt: their steps, and the states that are reached. A step is one hold
--     of the lock or one piece of work outside of it. A job is what a caller lends, and whether it
--     panics is open. The state has the one caller that holds `busy`; another one, a forked child and
--     one that asks before enough workers are ready take fresh threads (`spawned`).
--   * Write/Column.antt: `null_bits` and `col_prim` of src/write.rs, a host vector as an Arrow array
--     with its validity bitmap; Write/Ints.antt: the integer columns of `col_to_arrow`;
--     Write/Pick.antt: the choice of a column's encoding from a sample (`pick`).
--   * Write/Queue.antt: the work queue of the writer: `Q` and the lock sections of `worker` and
--     `master`; Write/Queue/Threads.antt: the two as threads with their waits, and the steps of all
--     of them together. A step is one hold of the lock or one piece of work outside of it, every
--     call of the parquet crate may fail, and a worker may panic at its task. The lock's poisoning is
--     left out, which the program ignores.
--   * Read/Codes.antt: symbol columns read as a dictionary and codes into it: the dictionary pages
--     (`dict_page`) and the plan of a column (`codes_plan`); Read/Codes/Fill.antt: the codes of a
--     batch (`SymCache::lut`, `fill_codes`, `sym_codes`). A map is the list of its insertions.
--   * Read/Decode.antt: the threads of `decode`, which claim tasks from one cursor, stop at the first
--     error and keep it. A step is one atomic operation, one hold of the lock or one task; what a
--     task comes to is a parameter.
--   * Read/One.antt: a task (`one`), as the list of its calls of the column decoders with the rows
--     that each delivers. What the file, the crates and the decoders give is the interface `Source`.
--   * Stream.antt: the column files of a splayed table (src/stream.rs). A file is its bytes and the
--     place of the next write.
--   * Host.antt: the tagged values of the host (src/ffi.rs): types, counts and integral atoms. What
--     the program reads of the heap is the interface `Heap`.
--   * Entry.antt: the arguments and options of the entry points (src/lib.rs), with `pq_read` and
--     `pq_rg` over the interface `Reader` of what they call.
--   * Tests.antt: every theorem at a concrete input, and runs of the definitions.
--
-- Loops are recursions over the list or the number that they walk. Two are on fuel:
-- the `while` of `each_null` gets 64 rounds, each of which clears a bit of a 64-bit word, and
-- `chunks` gets a round for each element, of which a chunk has one at least. The threads have no
-- fuel: their steps are relations, and measures of the state bound the runs.
--
-- Integers are written with their width: a `usize` total wraps at 2 ^ 64, as it does in a release
-- build, and an element type of w bits is the range from -2 ^ (w - 1) on. Floats are elements of an
-- unknown type.
--
-- Not modelled: the constructors and reference counts of the host (src/ffi.rs), the panic guard,
-- the scratch files and the other entry points (src/lib.rs), `par_map` of src/pool.rs, the
-- directory of the splayed stream (src/stream.rs) and every error of its files, the page decode of
-- `raw_col`, and the rest of the writer (src/write.rs). A file is read as one value.
pub mod Prelude
pub mod Types
pub mod Mru
pub mod Native
pub mod Host
pub mod Meta
pub mod Read
pub mod Pool
pub mod Write
pub mod Stream
pub mod Entry
pub mod Tests
