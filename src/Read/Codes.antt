-- ===== src/Read/Codes.antt =====
-- src/read.rs, `Codes`: symbol columns that are read as a dictionary and codes into it. A dictionary
-- page is its bytes; what the crates give for a row group is a parameter.
pub mod Fill
pub mod Union
pub mod Luts
pub mod Pair
pub mod Pages
use Prim.Native.Nat.{bit_xor}
use Prim.Native.String.{String}
use parquet_interop.Prelude.{
  ℕ, zero, suc, ◌+◌, ◌*◌, ◌/◌, ◌%◌, ◌^◌, ◌≤◌, ◌<◌, max, arith, Bool, true, false, ◌&&◌, ◌||◌,
  Option, none, some, List, [], ◌∷◌, ◌++◌, leb, ◌==◌, if◌then◌else◌, length, get_or, get_elem?, set,
  take, drop, Result, ok, err, ◌>>=◌,
}
use parquet_interop.Prelude.Int.{ℤ, pos, wrap}
use parquet_interop.Types.{kg, kh, ki}
use parquet_interop.Mru.{position, to_front, push_front}
use parquet_interop.Read.Nulls.{BitChunks}
use parquet_interop.Read.Fill.{null_rows}
use parquet_interop.Read.Symbols.{
  Bytes, Host, Arrays, SymCache, DictArray, le_value, fxh, bytes_eq, dict_max,
}

-- `Codes::width`
unfoldable pub codes_width : ℕ → ℕ
codes_width n = if leb n 256 then kg else if leb n 32768 then kh else ki

-- The number of codes that the host can index with, by the type of the vector of codes: a byte, and
-- the values from 0 on of the signed types.
abbrev pub index_bound : ℕ → ℕ
index_bound t = if t == kg then 2 ^ 8 else if t == kh then 2 ^ 15 else 2 ^ 31

-- The type of the codes can index every entry of a dictionary of at most 2 ^ 31, and each type with
-- a smaller range cannot.
pub codes_width_lem :
    (n t : ℕ)
    → n ≤ 2 ^ 31
    → (n ≤ index_bound (codes_width n))
      × (index_bound t < index_bound (codes_width n) → index_bound t < n)
unfolding codes_width
codes_width_lem n t h = (ground (arith, h), λ less. ground (arith, h, less))

-- `buf[o..o + n]`
abbrev pub slice : Bytes → ℕ × ℕ → Bytes
slice buf (o, n) = take n (drop o buf)

-- The loop over the entries of a dictionary page, from byte `i` on with `left` entries to go.
unfoldable pub page_spans : String → Bytes → ℕ → ℕ → Result (List (ℕ × ℕ))
page_spans short buf zero i = ok []
page_spans short buf (suc left) i =
    let n = le_value (take 4 (drop i buf)) in
    let rest = page_spans short buf left (i + (4 + n)) in
    if leb (i + 4) (length buf) && leb (i + 4 + n) (length buf)
    then (do spans ← rest; ok (((i + 4) % 2 ^ 32, n % 2 ^ 32) ∷ spans))
    else err short

abbrev pub le_bytes8 : ℕ → ℕ → Bytes
le_bytes8 zero n = []
le_bytes8 (suc k) n = n % 256 ∷ le_bytes8 k (n / 256)

-- The fold over the entries: the hash of their set.
unfoldable pub page_hash : Bytes → List (ℕ × ℕ) → ℕ → ℕ
page_hash buf [] h = h
page_hash buf (span ∷ spans) h =
    page_hash buf spans (bit_xor h (fxh (slice buf span) * 0x9e37_79b9_7f4a_7c15 % 2 ^ 64))

-- `DictBuf`
pub record DictBuf : Type 0 where
  pub hash : ℕ
  pub buf : Bytes
  pub spans : List (ℕ × ℕ)

-- `dict_page` from the page on. The page is absent where the column has no single leaf, or where
-- the chunk does not begin with a dictionary page.
unfoldable pub dict_page : String → Option (Bytes × ℕ) → Result DictBuf
unfolding page_spans page_hash fxh
dict_page short none = ok (record { hash = 0; buf = []; spans = [] })
dict_page short (some (buf, num_values)) = do
  out ← page_spans short buf num_values 0
  ok (record { hash = page_hash buf out (fxh (le_bytes8 8 (length out))); buf = buf; spans = out })

-- `HashMap` from the bytes of a value to its code.
abbrev pub Index : Type 0
Index = List (Bytes × ℕ)

unfoldable pub code_of : Bytes → Index → Option ℕ
unfolding bytes_eq
code_of b [] = none
code_of b ((v, i) ∷ ix) = if bytes_eq b v then some i else code_of b ix

abbrev pub member : ℕ → List ℕ → Bool
member h [] = false
member h (x ∷ xs) = h == x || member h xs

module _ (host : Host) where
  open host use {Ptr, intern}

  pub record Codes : Type 0 where
    pub d : List Ptr
    pub ix : Index
    pub empty : ℕ
    pub lt : ℕ

  -- `for &(o, n) in &spans`, on `d` and `ix`.
  unfoldable pub merge_entries : Bytes → List (ℕ × ℕ) → List Ptr × Index → List Ptr × Index
  unfolding code_of
  merge_entries buf [] st = st
  merge_entries buf (span ∷ spans) (d, ix) =
      let v = slice buf span in
      merge_entries buf spans (elim (code_of v ix) [
        | some i ↦ (d, ix)
        | none ↦ (d ++ (intern v ∷ []), (v, length d % 2 ^ 32) ∷ ix)
      ])

  -- `for (i, r) in out.into_iter().enumerate()`, on `seen`, `nulls`, `d` and `ix`; each page stands
  -- with what the statistics say of the chunk's nulls.
  unfoldable pub merge_pages :
      List (Result DictBuf × Bool)
      → List ℕ
      → Bool
      → List Ptr × Index
      → Result (Option (Bool × (List Ptr × Index)))
  unfolding merge_entries
  merge_pages [] seen nulls st = ok (some (nulls, st))
  merge_pages ((err e, may) ∷ pages) seen nulls st = err e
  merge_pages ((ok page, may) ∷ pages) seen nulls st = elim page.spans [
    | [] ↦ ok none
    | span ∷ spans ↦
        if member page.hash seen
        then merge_pages pages seen (nulls || may) st
        else merge_pages pages (page.hash ∷ seen) (nulls || may)
            (merge_entries page.buf page.spans st)
  ]

  abbrev pub plan_of : List Ptr → Index → ℕ → Codes
  plan_of d ix empty = record {
    d = d;
    ix = ix;
    empty = empty;
    lt = codes_width (max (length d) (empty + 1));
  }

  -- From `let empty` to the end of `codes_plan`.
  unfoldable pub close_plan : Bool → List Ptr × Index → Codes
  unfolding code_of
  close_plan nulls (d, ix) =
      let id = length d % 2 ^ 32 in
      elim (code_of [] ix) [
        | some i ↦ plan_of d ix i
        | none ↦
            if nulls then plan_of (d ++ (intern [] ∷ [])) (([], id) ∷ ix) id else plan_of d ix id
      ]

  -- `pages` is what `par_map` gives, none for a panic; `all` tells whether every row group has a
  -- dictionary page for the column.
  unfoldable pub codes_plan :
      String → Bool → Option (List (Result DictBuf × Bool)) → Result (Option Codes)
  unfolding merge_pages close_plan
  codes_plan panic false pages = ok none
  codes_plan panic true none = err panic
  codes_plan panic true (some []) = ok none
  codes_plan panic true (some (page ∷ pages)) = do
    merged ← merge_pages (page ∷ pages) [] false ([], [])
    ok (elim merged [ none ↦ none | some (nulls, st) ↦ some (close_plan nulls st) ])
