-- ===== src/Tests/Codes.antt =====
-- src/read.rs: code columns with a host that interns a text as itself.
use parquet_interop.Prelude.{
  ℕ, ◌≡◌, ◌⊎◌, refl, Bool, true, false, Option, none, some, List, [], ◌∷◌, arith, map, take, Result,
  ok, err,
}
use parquet_interop.Prelude.Bits.{bits}
use parquet_interop.Prelude.Int.{ℤ, pos}
use parquet_interop.Read.Fill.Rows.{end, null, value, Stands}
use parquet_interop.Read.Symbols.{Bytes, Host, Arrays, SymCache, new, DictArray}
use parquet_interop.Read.Codes.{
  slice, DictBuf, page_spans, Codes, codes_width, code_of, merge_pages, close_plan, merge_entries,
  codes_plan,
}
use parquet_interop.Read.Codes.Fill.{union_ids, fill_codes}
use parquet_interop.Read.Codes.Pages.{page_of, page_spans-page_of}
use parquet_interop.Read.Codes.Luts.{HasLuts}
use parquet_interop.Read.Codes.Pair.{Written, fill_codes-symbol}

abbrev texts_host : Host
texts_host = record { Ptr = Bytes; intern = λ b. b; read = λ p n. take n p }

-- A dictionary page of the texts ab and c.
abbrev two_texts : List Bytes
two_texts = (97 ∷ 98 ∷ []) ∷ (99 ∷ []) ∷ []

page_spans-page_of_example :
    (spans : List _) × (page_spans "short dictionary" (7 ∷ page_of two_texts) 2 1 ≡ ok spans)
    × (map (slice (7 ∷ page_of two_texts)) spans ≡ two_texts)
page_spans-page_of_example =
    page_spans-page_of "short dictionary" (7 ∷ []) two_texts [] (7 ∷ page_of two_texts) refl
      (omega arith)

page_spans_short :
    page_spans "short dictionary" (2 ∷ 0 ∷ 0 ∷ 0 ∷ 97 ∷ []) 1 0 ≡ err "short dictionary"
unfolding page_spans
page_spans_short = refl

-- The pages of two row groups: ab and c; c and d. The chunk of the second may hold nulls.
abbrev first_page : DictBuf
first_page = record { hash = 1; buf = page_of two_texts; spans = (4, 2) ∷ (10, 1) ∷ [] }

abbrev second_page : DictBuf
second_page = record {
  hash = 2;
  buf = page_of ((99 ∷ []) ∷ (100 ∷ []) ∷ []);
  spans = (4, 1) ∷ (9, 1) ∷ [];
}

abbrev pages : List (Result DictBuf × Bool)
pages = (ok first_page, false) ∷ (ok second_page, true) ∷ []

abbrev plan : Codes texts_host
plan = record {
  d = (97 ∷ 98 ∷ []) ∷ (99 ∷ []) ∷ (100 ∷ []) ∷ [] ∷ [];
  ix = ([], 3) ∷ (100 ∷ [], 2) ∷ (99 ∷ [], 1) ∷ (97 ∷ 98 ∷ [], 0) ∷ [];
  empty = 3;
  lt = 4;
}

planned : codes_plan texts_host "dictionary panic" true (some pages) ≡ ok (some plan)
unfolding codes_plan merge_pages merge_entries code_of close_plan codes_width
planned = refl

-- One dictionary array: c, a null, and ab.
abbrev values : List (Option Bytes)
values = some (99 ∷ []) ∷ none ∷ some (97 ∷ 98 ∷ []) ∷ []

abbrev one_array : Arrays
one_array = record { ArrayRef = Unit; ptr = λ a. 0; utf8_of = λ a. ok values }

one_array_ptr : (a b : Unit {0}) → ◌≡◌ {A = ℕ} 0 0 → a ≡ b
one_array_ptr a b h = refl

abbrev cache : SymCache texts_host one_array
cache = new texts_host one_array

abbrev keys : List (Option ℕ)
keys = some 2 ∷ none ∷ some 0 ∷ []

abbrev keyed : DictArray texts_host one_array
keyed = record {
  keys = 2 ∷ 7 ∷ 0 ∷ [];
  nulls = some (record { words = []; remainder_len = 3; remainder_bits = 5 });
  dict_values = tt;
}

keyed-Stands : Stands keys keyed.keys keyed.nulls
unfolding bits
keyed-Stands = (
  record { full = tt; partial_len = omega arith; partial = omega arith },
  value 2 (null 7 (value 0 end)),
)

abbrev host_vector : List ℤ
host_vector = pos 8 ∷ pos 0 ∷ pos 0 ∷ pos 0 ∷ pos 9 ∷ []

cache-HasLuts : HasLuts texts_host one_array (λ a. plan.ix) cache
unfolding new
cache-HasLuts = tt

fill_codes-symbol_example :
    (c' : SymCache texts_host one_array) × (dst' : List ℤ) × (gives : Bool) × (fill_codes texts_host
        one_array keyed plan host_vector 1 cache false
      ≡ ok ((dst', c'), gives))
    × HasLuts texts_host one_array (λ a. plan.ix) c'
    × (((union_ids plan.ix values ≡ none) × (dst' ≡ host_vector) × (gives ≡ true))
        ⊎ ((gives ≡ false) × Written texts_host plan values keys host_vector dst' 1))
fill_codes-symbol_example =
    fill_codes-symbol texts_host one_array (λ a. plan.ix) one_array_ptr "dictionary panic" true
      (some pages) plan keyed keys values host_vector 1 cache false planned (omega arith) refl
      cache-HasLuts keyed-Stands refl (omega arith)
