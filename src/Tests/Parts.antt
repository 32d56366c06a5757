-- ===== src/Tests/Parts.antt =====
-- src/read.rs, `one`: a part with the zero-copy column 2 and the columns 0 and 1, for five rows from
-- row 10 on, which come in batches of three and of two.
use parquet_interop.Prelude.{◌+◌, ◌≡◌, refl, some, [], ◌∷◌, ok, err}
use parquet_interop.Read.Window.{Part}
use parquet_interop.Read.One.{Source, one, raw_loop, copy_loop, batch_loop, arrow_cols}
use parquet_interop.Read.One.Tiles.{tiled}
use parquet_interop.Read.One.Complete.{one-tiled}

abbrev part : Part
part = record { raw = 2 ∷ []; outs = 0 ∷ 1 ∷ []; bat = 1 ∷ 0 ∷ [] }

abbrev source : Source
source = record {
  opened = ok tt;
  cloned = ok tt;
  built = ok tt;
  leaf = λ p. some p;
  raw_col = λ p leaf. ok 5;
  batches = ok 3 ∷ ok 2 ∷ [];
  copied = λ p b off. ok tt;
  no_leaf = "column leaf";
  wrong_rows = "rows";
}

all_delivered : (one source part 10 5).1 ≡ ok tt
unfolding one raw_loop arrow_cols batch_loop copy_loop
all_delivered = refl

one-tiled_example : tiled 1 10 (one source part 10 5).0 ≡ some (10 + 5)
one-tiled_example = one-tiled source 1 part 10 5 all_delivered refl

rows_missing : (one source part 10 6).1 ≡ err "rows"
unfolding one raw_loop
rows_missing = refl
