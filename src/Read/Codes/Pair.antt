-- ===== src/Read/Codes/Pair.antt =====
-- src/read.rs, `fill_codes`: a symbol column's codes, looked up in its dictionary, are the symbols
-- that `fill_sym_dict` writes.
use Prim.Native.String.{String}
use mathlib.Core.Path.{ap₂}
use parquet_interop.Prelude.{
  ℕ, ◌+◌, ◌^◌, ◌≤◌, ◌<◌, ◌≡◌, refl, sym, ap, ◌∙◌, arith, Bool, true, Option, none, some, List, [],
  ◌∷◌, ◌++◌, map, length, get_or, take, drop, length-take_of_le, Option-cases, inl, inr, ◌⊎◌,
  Result, ok,
}
use parquet_interop.Prelude.Int.{ℤ}
use parquet_interop.Read.Fill.{null_rows}
use parquet_interop.Read.Fill.Rows.{Stands, Stands-length, read_row, null_rows_lem}
use parquet_interop.Read.Symbols.{Bytes, Host, Arrays, SymCache, DictArray}
use parquet_interop.Read.Symbols.Lookup.{symbol}
use parquet_interop.Read.Codes.{DictBuf, Index, Codes, codes_plan}
use parquet_interop.Read.Codes.Fill.{union_ids, as_code, store_codes, fill_codes}
use parquet_interop.Read.Codes.Union.{IsPair, codes_plan-IsPair}
use parquet_interop.Read.Codes.Luts.{
  store_codes_lem, look_up, union_ids-HasSymbol, HasSymbol-look_up, HasLuts, lut-union_ids,
}

module _ (host : Host) where
  open host use {Ptr, intern}

  code_row : Codes host → List ℕ → Option ℕ → ℤ
  code_row cd ids = read_row (as_code cd.lt cd.empty) (λ k. as_code cd.lt (get_or ids k cd.empty))

  -- The codes of the rows, looked up, are the symbols of the rows.
  look_up_rows :
      (cd : Codes host) (values : List (Option Bytes)) (ids : List ℕ) (rows : List (Option ℕ))
      → IsPair host cd
      → union_ids cd.ix values ≡ some ids
      → map (look_up host cd.d) (map (code_row cd ids) rows)
        ≡ map (read_row (intern []) (λ k. symbol host (get_or values k none))) rows
  unfolding code_row
  look_up_rows cd values ids [] pair are = refl
  look_up_rows cd values ids (none ∷ rows) pair are =
      ap₂ ◌∷◌ (HasSymbol-look_up host cd cd.empty none (omega (arith, pair.within), pair.blank))
        (look_up_rows cd values ids rows pair are)
  look_up_rows cd values ids (some k ∷ rows) pair are =
      ap₂ ◌∷◌
        (HasSymbol-look_up host cd (get_or ids k cd.empty) (get_or values k none)
          (union_ids-HasSymbol host cd values ids k pair are))
        (look_up_rows cd values ids rows pair are)

  -- A batch that is written: codes which are, looked up in the dictionary, the symbols of the rows.
  pub record Written (cd : Codes host) (values : List (Option Bytes)) (rows : List (Option ℕ))
      (dst dst' : List ℤ) (off : ℕ) : Type 0 where
    pub codes : List ℤ
    pub stored : dst' ≡ take off dst ++ (codes ++ drop (off + length rows) dst)
    pub symbols :
        map (look_up host cd.d) codes
        ≡ map (read_row (intern []) (λ k. symbol host (get_or values k none))) rows

  module _ (arrays : Arrays) where
    open arrays use {ArrayRef, ptr, utf8_of}

    -- The loop over the keys and the null patch behind it.
    store_rows :
        (a : DictArray host arrays) (cd : Codes host) (ids : List ℕ) (rows : List (Option ℕ))
        (dst : List ℤ) (off : ℕ)
        → Stands rows a.keys a.nulls
        → off + length rows ≤ length dst
        → null_rows
            (as_code cd.lt cd.empty)
            a.nulls
            off
            (store_codes cd.lt ids cd.empty off a.keys dst)
          ≡ take off dst ++ (map (code_row cd ids) rows ++ drop (off + length rows) dst)
    unfolding code_row
    store_rows a cd ids rows dst off stands fit =
        let pre = take off dst in
        let e = as_code cd.lt cd.empty in
        let here : length pre ≡ off = length-take_of_le off dst (omega arith) in
        let count = Stands-length rows a.keys a.nulls stands in
        let value = λ (k : ℕ). as_code cd.lt (get_or ids k cd.empty) in
        ap (null_rows e a.nulls off)
          (store_codes_lem cd.lt ids cd.empty off a.keys dst (omega arith))
        ∙ ap
            (λ n.
              null_rows e a.nulls n (pre ++ (map value a.keys ++ drop (off + length a.keys) dst)))
            (sym here)
        ∙ null_rows_lem e a.nulls rows value pre a.keys (drop (off + length a.keys) dst) stands
        ∙ ap (λ n. pre ++ (map (read_row e value) rows ++ drop (off + n) dst)) (sym count)

    module _ (owner : ArrayRef → Index) where
      module _ (same_ptr : (a b : ArrayRef) → ptr a ≡ ptr b → a ≡ b) where
        -- `fill_codes` with the plan of `codes_plan` either leaves the vector and gives the pair up,
        -- which it does only where a value of the batch's dictionary has no code in the union, or
        -- writes a code for every row and keeps the other rows and the flag. Looked up in the plan's
        -- dictionary, an index past its end reading as the empty symbol, the codes are the symbols
        -- of the strings that the keys stand for, the empty one for a null row, a null value and a
        -- key out of range, whatever the pages and the hashes of their sets. The union is taken to
        -- have fewer than 2 ^ 31 entries, arrays that are alive at one address to be the same, and
        -- a dictionary to belong to one column; the cache's tables are right before and after.
        pub fill_codes-symbol :
            (panic : String) (all : Bool) (pages : Option (List (Result DictBuf × Bool)))
            (cd : Codes host) (a : DictArray host arrays) (rows : List (Option ℕ))
            (values : List (Option Bytes)) (dst : List ℤ) (off : ℕ) (c : SymCache host arrays)
            (give : Bool)
            → codes_plan host panic all pages ≡ ok (some cd)
            → length cd.d < 2 ^ 31
            → owner a.dict_values ≡ cd.ix
            → HasLuts host arrays owner c
            → Stands rows a.keys a.nulls
            → utf8_of a.dict_values ≡ ok values
            → off + length rows ≤ length dst
            → (c' : SymCache host arrays) × (dst' : List ℤ) × (gives : Bool) × (fill_codes host
                  arrays a cd dst off c give
                ≡ ok ((dst', c'), gives))
              × HasLuts host arrays owner c'
              × (((union_ids cd.ix values ≡ none) × (dst' ≡ dst) × (gives ≡ true))
                  ⊎ ((gives ≡ give) × Written cd values rows dst dst' off))
        unfolding fill_codes
        fill_codes-symbol panic all pages cd a rows values dst off c give planned small owned h
              stands read_as fit =
            let (c', found, kept) =
              lut-union_ids host arrays owner same_ptr c a.dict_values values cd h owned read_as in
            elim (Option-cases (union_ids cd.ix values)) [
              | inl absent ↦ (c', dst, true, rw (found, absent), kept, inl (absent, refl, refl))
              | inr (ids, are) ↦
                  let stored = store_rows a cd ids rows dst off stands fit in
                  let dst' =
                    take off dst ++ (map (code_row cd ids) rows ++ drop (off + length rows) dst) in
                  (
                    c',
                    dst',
                    give,
                    rw (found, are) (ap (λ d. ok ((d, c'), give)) stored),
                    kept,
                    inr (
                      refl,
                      record {
                        codes = map (code_row cd ids) rows;
                        stored = refl;
                        symbols =
                            look_up_rows cd values ids rows
                              (codes_plan-IsPair host panic all pages cd planned small) are;
                      },
                    ),
                  )
            ]
