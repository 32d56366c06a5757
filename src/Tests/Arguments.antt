-- ===== src/Tests/Arguments.antt =====
-- src/ffi.rs and src/lib.rs: values and arguments of a small heap.
use Prim.Native.String.{String}
use parquet_interop.Prelude.{
  ℕ, zero, suc, ◌+◌, ◌*◌, ◌^◌, ◌≡◌, ◌↔◌, ◌==◌, if◌then◌else◌, refl, true, Option, some, none, List,
  [], ◌∷◌, arith, ok,
}
use parquet_interop.Prelude.Int.{ℤ, pos, negsuc, bits_of, of_bits, wrap, ◌-ℤ◌}
use parquet_interop.Types.{kb, kh, ki, kj, ks}
use parquet_interop.Host.{Heap, kt, kn, kjv, atom_i64}
use parquet_interop.Host.Atoms.{inline_long, narrow_atom, atom_i64_lem}
use parquet_interop.Entry.{
  Objects, Reader, is_empty, path_of, ptr_str, syms_of, files_of, cols_of, long_of, val_at, opt_key,
  opt_keys, rd_opts, xd, read_window, is_rg_bad, rg_opts, rg_run, pq_rg,
}
use parquet_interop.Entry.Options.{IsOpts, rd_opts-IsOpts}
use parquet_interop.Entry.Windows.{IsWindow, pq_rg-IsWindow}

-- The object at address 0 is the argument list (file; column; 1; 2; options), the one at 8 a vector
-- of one Boolean, the one at 16 the dict of the options, and the one at 24 its keys.
abbrev heap : Heap
heap = record {
  subtype =
      λ a. if a == 0 then pos 0 else if a == 16 then pos xd else if a == 24 then pos ks else pos kb;
  count = λ a. if a == 0 then pos 5 else pos 1;
  cell = λ a. pos a;
}

abbrev arguments : List ℕ
arguments =
    (ks * 2 ^ 58 + 1) ∷ (ks * 2 ^ 58 + 2) ∷ inline_long (pos 1) ∷ inline_long (pos 2) ∷ 16 ∷ []

abbrev texts : ℕ → Option String
texts zero = none
texts (suc zero) = some ":t"
texts (suc (suc zero)) = some "c"
texts (suc (suc (suc a))) = some "codes"

abbrev objects : Objects
objects = record {
  values = λ a. if a == 16 then 24 ∷ 8 ∷ [] else arguments;
  symbols = λ a. 3 ∷ [];
  longs = λ a. [];
  ints = λ a. [];
  shorts = λ a. [];
  bytes = λ a. 1 ∷ [];
  text = texts;
}

abbrev reader : Reader
reader = record {
  Opened = List (String × String);
  Selected = Option (List String);
  open_files = λ files who. ok files;
  groups = λ set. 3;
  select_columns = λ set want who. ok want;
  read_groups = λ set sel lo hi codes who. ok (if codes then 10 * lo + hi else 0);
}

abbrev show : ℤ → String
show n = "n"

atom_i64_lem_example :
    (atom_i64 heap (inline_long (negsuc 0)) ≡ some (negsuc 0))
    × (atom_i64 heap (kj * 2 ^ 58 + 40) ≡ some (pos 40))
    × (atom_i64 heap (narrow_atom ki (2 ^ 31) (negsuc 6)) ≡ some (negsuc 6))
    × (atom_i64 heap (narrow_atom kh (2 ^ 15) (pos 7)) ≡ some (pos 7))
atom_i64_lem_example =
    atom_i64_lem heap (negsuc 0) (negsuc 6) (pos 7) 40 (omega arith, omega arith) (omega arith)
      (omega arith, omega arith) (omega arith, omega arith)

rd_opts-IsOpts_example :
    (rd_opts heap objects "pq_read" (some 16) ≡ ok (record { codes = true }))
    ↔ IsOpts heap objects "pq_read" (some 16) (record { codes = true })
rd_opts-IsOpts_example = rd_opts-IsOpts heap objects "pq_read" (some 16) (record { codes = true })

accepted : rd_opts heap objects "pq_read" (some 16) ≡ ok (record { codes = true })
unfolding rd_opts opt_keys ptr_str val_at opt_key kt
accepted = refl

pq_rg_run : pq_rg heap objects reader show 0 ≡ ok 12
unfolding pq_rg is_rg_bad rg_opts rg_run rd_opts opt_keys val_at opt_key files_of cols_of long_of
    read_window syms_of ptr_str is_empty path_of atom_i64 kjv kt kn wrap bits_of of_bits ◌-ℤ◌
pq_rg_run = refl

pq_rg-IsWindow_example : IsWindow heap objects reader show 0 12
pq_rg-IsWindow_example = pq_rg-IsWindow heap objects reader show 0 12 pq_rg_run
