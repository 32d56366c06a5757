-- ===== src/Tests/Footers.antt =====
-- src/meta.rs: leaves, the footer cache and the dictionary hint at concrete inputs.
use Prim.Native.String.{String}
use parquet_interop.Prelude.{
  ℕ, zero, suc, ◌≡◌, ◌↔◌, refl, true, false, some, [], ◌∷◌, map, arith, get_elem?, ok,
}
use parquet_interop.Prelude.Int.{pos, wrap, ◌+ℤ◌}
use parquet_interop.Types.{DataType, utf8, int64, int32, dictionary, l_type_of}
use parquet_interop.Meta.Leaf.{leaf_map}
use parquet_interop.Meta.Leaf.Unique.{IsOnlyLeaf, leaf_map_unique}
use parquet_interop.Meta.Footers.{
  Field, Schema, any_string, dict_hint, hint_field, is_string, Key, FooterLib, key_eq, Footer,
  Footers, make_src, apply_hint, parse_footer, find_footer, sum_from, store_footer,
}
use parquet_interop.Meta.Footers.Loads.{
  Request, Loader, looking, parsing, storing, back, looked, checked, load_step, Process, Step, call,
  move, Reach, begin, next,
}
use parquet_interop.Meta.Footers.Cache.{Answers, Advances, load-fresh}
use parquet_interop.Meta.Footers.Coherent.{IsCoherent}
use parquet_interop.Prelude.Crew.{at, Each}
use parquet_interop.Meta.Footers.Hint.{kept, dict_hint_lem}
use parquet_interop.Prelude.{◌<◌, ◌==◌, Bool}
use parquet_interop.Mru.{position, push_front}
use parquet_interop.Mru.Laws.{All}
use parquet_interop.Types.{ks, kj, raw_i64, raw_of, phys_int64}
use parquet_interop.Meta.Footers.{Src}
use parquet_interop.Meta.Open.{
  collect, names_agree, types_agree, column_type, Set, same_table, check_all, open_srcs, open_set,
  n_rg, leaf_of, enc_of,
}
use parquet_interop.Meta.Open.Agree.{Presents, open_set-Presents}
use parquet_interop.Meta.Open.Enc.{AllDict, enc_of_lem}
use parquet_interop.Read.Window.{sort}
use parquet_interop.Read.Select.{
  dedup, dedup_from, raw_eq, column_of, type_at, Columns, Sel, raw_step, raw_loop, raw_column,
  wanted, select,
}
use parquet_interop.Read.Select.Chosen.{IsRaw, zip_raw, select_lem}

-- A struct of two leaves ahead of a flat column.
abbrev root_of : ℕ → ℕ
root_of zero = 0
root_of (suc zero) = 0
root_of (suc (suc n)) = 1

leaf_map_unique_example :
    (get_elem? (leaf_map root_of 2 3) 1 ≡ some (some 2)) ↔ IsOnlyLeaf root_of 3 1 2
leaf_map_unique_example = leaf_map_unique root_of 1 2 3 2 (omega arith)

abbrev show : DataType → String
show t = "type"

abbrev name_field : Field
name_field = record { name = "name"; data_type = utf8; nullable = true; metadata = [] }

abbrev count_field : Field
count_field = record { name = "count"; data_type = int64; nullable = false; metadata = [] }

abbrev inferred : Schema
inferred = record { fields = name_field ∷ count_field ∷ []; metadata = [] }

abbrev hinted : Schema
hinted = record {
  fields = record name_field { data_type = dictionary int32 utf8 } ∷ count_field ∷ [];
  metadata = [];
}

dict_hint_lem_example :
    (map kept hinted.fields ≡ map kept inferred.fields)
    × (hinted.metadata ≡ inferred.metadata)
    × (map (λ f. l_type_of show f.data_type) hinted.fields
        ≡ map (λ f. l_type_of show f.data_type) inferred.fields)
    × (any_string hinted.fields ≡ false)
dict_hint_lem_example = dict_hint_lem show inferred hinted taken
  where
    taken : dict_hint inferred ≡ some hinted
    taken = unfold dict_hint any_string hint_field is_string in refl

-- A library whose files are their own footers: one row group of that many rows.
abbrev plain_lib : FooterLib
plain_lib = record {
  File = ℕ;
  Md = ℕ;
  load_md = λ n. ok n;
  try_new = λ md s. some md;
  schema = λ md. inferred;
  row_groups = λ md. pos md ∷ [];
  declared = λ md. pos md;
  root_of = λ md l. l;
  columns = λ md. 2;
}

abbrev key : Key
key = record {
  path = "t.parquet";
  dev = 1;
  ino = 2;
  size = 7;
  mtime_sec = pos 0;
  mtime_nsec = pos 0;
}

abbrev content : Key → ℕ
content k = k.size

-- Two calls for one file. Both miss it and parse it, the first stores it, and the second meets it.
abbrev request : Request
request = record { orig = "t"; who = "pq_read"; key = key }

abbrev other : Request
other = record { orig = ":t"; who = "pq_meta"; key = key }

abbrev footer : Footer plain_lib
footer = (7, pos 7 ∷ [])

abbrev src_of : String → Src plain_lib
src_of orig = record {
  path = "t.parquet";
  orig = orig;
  md = 7;
  rg_rows = pos 7 ∷ [];
  leaf = some 0 ∷ some 1 ∷ [];
}

abbrev at_stage :
    Footers plain_lib
    → Loader plain_lib content
    → Loader plain_lib content
    → Process plain_lib content
at_stage c l m = record { footers = c; loads = (other, m) ∷ (request, l) ∷ [] }

abbrev stored : Footers plain_lib
stored = (key, footer) ∷ []

abbrev answered : Process plain_lib content
answered = at_stage stored (back (ok (src_of "t"))) (back (ok (src_of ":t")))

first_moves :
    {c c' : Footers plain_lib} {l l' m : Loader plain_lib content}
    → load_step plain_lib content request true l c ≡ some (l', c')
    → Step plain_lib content (at_stage c l m) (at_stage c' l' m)
first_moves {c} {c'} {l} {l'} {m} step =
    move request true l l' step (at ((other, m) ∷ []) [] refl refl)

second_moves :
    {c c' : Footers plain_lib} {l m m' : Loader plain_lib content}
    → load_step plain_lib content other true m c ≡ some (m', c')
    → Step plain_lib content (at_stage c l m) (at_stage c' l m')
second_moves {c} {c'} {l} {m} {m'} step =
    move other true m m' step (at [] ((request, l) ∷ []) refl refl)

raced : Reach plain_lib content answered
unfolding wrap ◌+ℤ◌
raced =
    let called = next (next begin (call request refl refl)) (call other refl refl) in
    let missed : Reach plain_lib content (at_stage [] parsing parsing) =
      next (next called (first_moves looks)) (second_moves looks_too) in
    let parsed : Reach plain_lib content (at_stage [] (storing footer) (storing footer)) =
      next (next missed (first_moves parses)) (second_moves parses_too) in
    next (next parsed (first_moves stores)) (second_moves finds)
  where
    looks : load_step plain_lib content request true looking [] ≡ some (parsing, [])
    looks = unfold load_step looked find_footer position in refl

    looks_too : load_step plain_lib content other true looking [] ≡ some (parsing, [])
    looks_too = unfold load_step looked find_footer position in refl

    parses : load_step plain_lib content request true parsing [] ≡ some (storing footer, [])
    parses =
        unfold load_step checked parse_footer apply_hint dict_hint any_string is_string sum_from in
        refl

    parses_too : load_step plain_lib content other true parsing [] ≡ some (storing footer, [])
    parses_too =
        unfold load_step checked parse_footer apply_hint dict_hint any_string is_string sum_from in
        refl

    stores :
        load_step plain_lib content request true (storing footer) []
        ≡ some (back (ok (src_of "t")), stored)
    stores = unfold load_step store_footer push_front position make_src leaf_map in refl

    finds :
        load_step plain_lib content other true (storing footer) stored
        ≡ some (back (ok (src_of ":t")), stored)
    finds = unfold load_step store_footer push_front position key_eq make_src leaf_map in refl

load-fresh_example :
    IsCoherent plain_lib content stored
    × Each (λ a. Answers plain_lib content a.0 a.1) answered.loads
    × Each (λ a. Advances plain_lib content a.0 a.1 stored) answered.loads
load-fresh_example = load-fresh plain_lib content answered raced

abbrev plain_set : Set show plain_lib
plain_set = record {
  srcs = src_of "t" ∷ src_of "t" ∷ [];
  names = "name" ∷ "count" ∷ [];
  lts = ok ks ∷ ok kj ∷ [];
}

open_set-Presents_example :
    (map ok plain_set.srcs ≡ ok (src_of "t") ∷ ok (src_of "t") ∷ [])
    × All (Presents show plain_lib plain_set) plain_set.srcs
open_set-Presents_example =
    open_set-Presents show plain_lib "pq_read" 2 (ok (src_of "t") ∷ ok (src_of "t") ∷ []) plain_set
      opened
  where
    opened :
        open_set show plain_lib "pq_read" 2 (some (ok (src_of "t") ∷ ok (src_of "t") ∷ []))
        ≡ ok plain_set
    opened =
        unfold open_set collect open_srcs check_all same_table names_agree types_agree column_type
          l_type_of in
        refl

abbrev has_dict : ℕ → ℕ → ℕ → Bool
has_dict md g l = l == 0

plain_column :
    (enc_of plain_lib has_dict plain_set.srcs 0 ≡ true)
    ↔ ((0 < n_rg plain_lib plain_set.srcs) × All (AllDict plain_lib has_dict 0) plain_set.srcs)
plain_column = enc_of_lem plain_lib has_dict 0 plain_set.srcs

abbrev plain_columns : Columns ℕ
plain_columns = record {
  field_type = λ md c. int64;
  physical_type = λ md l. phys_int64;
  max_rep_level = λ md l. 0;
}

abbrev one_column : Sel
one_column = record { out = 1 ∷ []; lts = kj ∷ []; uniq = 1 ∷ []; raw = some (raw_i64 1) ∷ [] }

select_lem_example :
    (map (get_elem? plain_set.names) one_column.out ≡ some "count" ∷ [])
    × (map (get_elem? plain_set.lts) one_column.out ≡ map (λ t. some (ok t)) one_column.lts)
    × All
        (IsRaw plain_lib plain_columns plain_set.srcs)
        (zip_raw plain_lib plain_columns one_column.out one_column.raw)
select_lem_example =
    select_lem plain_lib plain_columns show plain_set ("count" ∷ []) "pq_read" one_column selected
  where
    selected :
        select plain_lib plain_columns show plain_set (some ("count" ∷ [])) "pq_read"
        ≡ ok one_column
    selected =
        unfold select wanted column_of position type_at collect dedup dedup_from sort raw_column
          raw_loop raw_step leaf_of raw_of raw_eq in
        refl
