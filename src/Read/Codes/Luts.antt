-- ===== src/Read/Codes/Luts.antt =====
-- src/read.rs, `SymCache::lut`: a dictionary's ids are the codes of its values, and they stand for
-- the symbols of these.
use mathlib.Core.Path.{ap₂, subst}
use mathlib.Core.Option.{some_inj}
use native.Mathlib.Nat.{add-zero, mod-eq_of_lt}
use parquet_interop.Prelude.{
  ℕ, zero, suc, ◌+◌, ◌^◌, ◌≤◌, ◌<◌, ◌≡◌, refl, sym, ap, ◌∙◌, arith, Option, none, some, List, [],
  ◌∷◌, ◌++◌, map, length, length-set, set, set_step, get_or, get_elem?_bound, take, drop,
  take-append-drop, Bool-cases, Option-cases, inl, inr, ◌==◌, ok, ok_inj,
}
use parquet_interop.Prelude.Int.{ℤ, pos, negsuc, wrap-Fits}
use parquet_interop.Types.{kg, kh}
use parquet_interop.Mru.{position, push_front}
use parquet_interop.Mru.Laws.{All, All-take, position-Hit, Hit-All}
use parquet_interop.Read.Symbols.{Bytes, Host, Arrays, SymCache, dict_max}
use parquet_interop.Read.Symbols.Lookup.{symbol}
use parquet_interop.Read.Codes.{index_bound, Index, code_of, Codes}
use parquet_interop.Read.Codes.Fill.{
  text_of, union_ids, as_code, store_codes, lut, lut_hit, lut_miss,
}
use parquet_interop.Read.Codes.Union.{IsPair, get_or_found}

-- A code that the host can index with is stored as it is.
as_code-pos : (t id : ℕ) → id < index_bound t → as_code t id ≡ pos id
unfolding as_code
as_code-pos t id h = elim (Bool-cases (t == kg)) [
  | inl g ↦ rw (g, as_code) (ap pos (mod-eq_of_lt (ground (arith, h, g))))
  | inr not_g ↦ elim (Bool-cases (t == kh)) [
    | inl w ↦ rw (not_g, w, as_code) (wrap-Fits (2 ^ 15) (pos id) (ground (arith, h, not_g, w)))
    | inr not_h ↦
        rw (not_g, not_h, as_code) (wrap-Fits (2 ^ 31) (pos id) (ground (arith, h, not_g, not_h)))
  ]
]

-- The first id is the code of the first value, and the others are those of the others.
record FirstId (ix : Index) (v : Option Bytes) (vs : List (Option Bytes)) (ids : List ℕ)
    : Type 0 where
  id : ℕ
  rest : List ℕ
  is : ids ≡ id ∷ rest
  here : code_of (text_of v) ix ≡ some id
  are : union_ids ix vs ≡ some rest

union_ids_cons :
    (ix : Index) (v : Option Bytes) (vs : List (Option Bytes)) (ids : List ℕ)
    → union_ids ix (v ∷ vs) ≡ some ids
    → FirstId ix v vs ids
unfolding union_ids
union_ids_cons ix v vs ids = elim (Option-cases (code_of (text_of v) ix)) [
  | inl absent ↦ rw (absent, union_ids) (λ got. cc)
  | inr (id, here) ↦ elim (Option-cases (union_ids ix vs)) [
    | inl none_left ↦ rw (here, none_left, union_ids) (λ got. cc)
    | inr (rest, are) ↦
        rw (here, are, union_ids)
          (λ got. record {
            id = id;
            rest = rest;
            is = sym (some_inj.0 got);
            here = here;
            are = are;
          })
  ]
]

pub store_codes_lem :
    (t : ℕ) (ids : List ℕ) (e off : ℕ) (ks : List ℕ) (dst : List ℤ)
    → off + length ks ≤ length dst
    → store_codes t ids e off ks dst
      ≡ take off dst ++ (map (λ k. as_code t (get_or ids k e)) ks ++ drop (off + length ks) dst)
unfolding store_codes
store_codes_lem t ids e off [] dst fit = rw add-zero (sym (take-append-drop off dst))
store_codes_lem t ids e off (k ∷ ks) dst fit =
    let c = as_code t (get_or ids k e) in
    store_codes_lem t ids e (off + 1) ks (set dst off c) (omega (arith, length-set dst off c))
    ∙ set_step dst off (length ks) c (map (λ k. as_code t (get_or ids k e)) ks) (omega arith)

module _ (host : Host) where
  open host use {Ptr, intern}

  -- The host's `D[C]`: an index out of range reads as the empty symbol.
  unfoldable pub look_up : List Ptr → ℤ → Ptr
  look_up d (pos k) = get_or d k (intern [])
  look_up d (negsuc n) = intern []

  -- A code within the type of the codes, which stands for the symbol of `r`.
  abbrev pub HasSymbol : Codes host → ℕ → Option Bytes → Type 0
  HasSymbol cd id r = (id < index_bound cd.lt) × (get_or cd.d id (intern []) ≡ symbol host r)

  intern-text_of : (v : Option Bytes) → intern (text_of v) ≡ symbol host v
  intern-text_of none = refl
  intern-text_of (some b) = refl

  pub union_ids-HasSymbol :
      (cd : Codes host) (values : List (Option Bytes)) (ids : List ℕ) (k : ℕ)
      → IsPair host cd
      → union_ids cd.ix values ≡ some ids
      → HasSymbol cd (get_or ids k cd.empty) (get_or values k none)
  unfolding union_ids
  union_ids-HasSymbol cd [] ids k pair = λ got.
      subst (λ ids. HasSymbol cd (get_or ids k cd.empty) none) (some_inj.0 got)
        (omega (arith, pair.within), pair.blank)
  union_ids-HasSymbol cd (v ∷ vs) ids zero pair = λ got.
      let f = union_ids_cons cd.ix v vs ids got in
      let at = pair.right (text_of v) f.id f.here in
      subst (λ ids. HasSymbol cd (get_or ids 0 cd.empty) v) (sym f.is)
        (
          omega (arith, get_elem?_bound cd.d f.id at, pair.within),
          get_or_found cd.d f.id (intern []) at ∙ intern-text_of v,
        )
  union_ids-HasSymbol cd (v ∷ vs) ids (suc k) pair = λ got.
      let f = union_ids_cons cd.ix v vs ids got in
      subst (λ ids. HasSymbol cd (get_or ids (suc k) cd.empty) (get_or vs k none)) (sym f.is)
        (union_ids-HasSymbol cd vs f.rest k pair f.are)

  pub HasSymbol-look_up :
      (cd : Codes host) (id : ℕ) (r : Option Bytes)
      → HasSymbol cd id r
      → look_up cd.d (as_code cd.lt id) ≡ symbol host r
  unfolding look_up
  HasSymbol-look_up cd id r h = ap (look_up cd.d) (as_code-pos cd.lt id h.0) ∙ h.1

  module _ (arrays : Arrays) where
    open arrays use {ArrayRef, ptr, utf8_of}

    module _ (owner : ArrayRef → Index) where
      -- A kept table is that of its dictionary, in the union of the column it belongs to.
      abbrev pub IsLut : ArrayRef × Option (List ℕ) → Type 0
      IsLut e =
          (values : List (Option Bytes)) × (utf8_of e.0 ≡ ok values)
          × (e.1 ≡ union_ids (owner e.0) values)

      abbrev pub HasLuts : SymCache host arrays → Type 0
      HasLuts c = All IsLut c.luts

      module _ (same_ptr : (a b : ArrayRef) → ptr a ≡ ptr b → a ≡ b) where
        pub lut-union_ids :
            (c : SymCache host arrays) (vals : ArrayRef) (values : List (Option Bytes))
            (cd : Codes host)
            → HasLuts c
            → owner vals ≡ cd.ix
            → utf8_of vals ≡ ok values
            → (c' : SymCache host arrays) × (lut host arrays c vals cd
                ≡ ok (union_ids cd.ix values, c'))
              × HasLuts c'
        unfolding lut lut_miss
        lut-union_ids c vals values cd h owned read_as =
            elim (Option-cases (position (λ e. ptr e.0 == ptr vals) c.luts)) [
              | inl miss ↦ (
                record c { luts = push_front dict_max (vals, union_ids cd.ix values) c.luts },
                rw (miss, lut, lut_miss, read_as),
                ((values, read_as, rw owned refl), All-take IsLut 3 c.luts h),
              )
              | inr (i, at) ↦
                  let test = λ (e : ArrayRef × Option (List ℕ)). ptr e.0 == ptr vals in
                  let hit = position-Hit test c.luts i at in
                  let all = Hit-All IsLut test c.luts i hit h in
                  let same = same_ptr hit.entry.0 vals (ground (arith, hit.found)) in
                  let (kept, of_kept, table) = all.0 in
                  let values_eq : kept ≡ values =
                    ok_inj (sym of_kept ∙ ap utf8_of same ∙ read_as) in
                  let c' : SymCache host arrays = record c {
                    luts = hit.entry ∷ (hit.before ++ hit.behind);
                  } in
                  (
                    c',
                    rw (at, lut, hit.moved, lut_hit)
                        (ap (λ t. ok (t, c'))
                          (table ∙ ap₂ union_ids (ap owner same ∙ owned) values_eq)),
                    subst (All IsLut) hit.moved all.1,
                  )
            ]
