-- ===== src/Read/Codes/Union.antt =====
-- src/read.rs, `codes_plan`: every code of the union stands for the symbol of its value.
use Prim.Native.String.{String}
use native.Mathlib.Nat.{mod-eq_of_lt}
use mathlib.Core.Path.{subst}
use mathlib.Core.Option.{some_inj}
use parquet_interop.Prelude.{
  ℕ, zero, suc, ◌+◌, ◌%◌, ◌^◌, ◌≤◌, ◌<◌, ◌≡◌, refl, sym, ap, ◌∙◌, max, arith, Bool, true, false,
  ◌||◌, Option, none, some, List, [], ◌∷◌, ◌++◌, length, length-snoc, get_or, get_elem?,
  get_elem?_bound, Bool-cases, Option-cases, ◌⊎◌, inl, inr, Result, ok, err, bind_ok, ok_inj,
}
use parquet_interop.Read.Symbols.{Bytes, Host, bytes_eq}
use parquet_interop.Read.Symbols.Lookup.{bytes_eq→eq}
use parquet_interop.Read.Codes.{
  codes_width_lem, index_bound, slice, DictBuf, Index, code_of, member, Codes, merge_entries,
  merge_pages, plan_of, close_plan, codes_plan,
}

module _ {ℓ} {A : Type ℓ} where
  List-cases : (xs : List A) → (xs ≡ []) ⊎ ((x : A) × ((ys : List A) × (xs ≡ x ∷ ys)))
  List-cases [] = inl refl
  List-cases (x ∷ ys) = inr (x, (ys, refl))

  get_elem?-append :
      (xs ys : List A) (i : ℕ) {x : A} → get_elem? xs i ≡ some x → get_elem? (xs ++ ys) i ≡ some x
  get_elem?-append [] ys i h = cc
  get_elem?-append (y ∷ xs) ys zero h = h
  get_elem?-append (y ∷ xs) ys (suc i) h = get_elem?-append xs ys i h

  get_elem?-snoc : (xs : List A) (x : A) → get_elem? (xs ++ (x ∷ [])) (length xs) ≡ some x
  get_elem?-snoc [] x = refl
  get_elem?-snoc (y ∷ xs) x = get_elem?-snoc xs x

  pub get_or_found :
      (xs : List A) (i : ℕ) (d : A) {x : A} → get_elem? xs i ≡ some x → get_or xs i d ≡ x
  get_or_found [] i d h = cc
  get_or_found (y ∷ xs) zero d h = some_inj.0 h
  get_or_found (y ∷ xs) (suc i) d h = get_or_found xs i d h

  get_or_past : (xs : List A) (i : ℕ) (d : A) → length xs ≤ i → get_or xs i d ≡ d
  get_or_past [] i d h = refl
  get_or_past (y ∷ xs) zero d h = absurd (omega arith)
  get_or_past (y ∷ xs) (suc i) d h = get_or_past xs i d (omega arith)

module _ (host : Host) where
  open host use {Ptr, intern}

  -- A code is the place of its value's symbol.
  abbrev pub IsUnion : List Ptr → Index → Type 0
  IsUnion d ix = (b : Bytes) (i : ℕ) → code_of b ix ≡ some i → get_elem? d i ≡ some (intern b)

  -- The union grows and its codes stay right, as long as a code fits in 32 bits.
  abbrev Extends : List Ptr × Index → List Ptr × Index → Type 0
  Extends st st' =
      (length st.0 ≤ length st'.0)
      × (length st'.0 < 2 ^ 32 → IsUnion st.0 st.1 → IsUnion st'.0 st'.1)

  Extends-trans : (a b c : List Ptr × Index) → Extends a b → Extends b c → Extends a c
  Extends-trans a b c ab bc =
      (omega (arith, ab.0, bc.0), λ small h. bc.1 small (ab.1 (omega (arith, bc.0, small)) h))

  Extends-refl : (st : List Ptr × Index) → Extends st st
  Extends-refl st = (omega arith, λ small h. h)

  add_value :
      (v : Bytes) (d : List Ptr) (ix : Index)
      → Extends (d, ix) (d ++ (intern v ∷ []), (v, length d % 2 ^ 32) ∷ ix)
  unfolding code_of
  add_value v d ix = (
    omega (arith, length-snoc d (intern v)),
    λ below h b i found.
        let small : length d < 2 ^ 32 = omega (arith, length-snoc d (intern v), below) in
        elim (Bool-cases (bytes_eq b v)) [
          | inl same ↦
              let place : length d % 2 ^ 32 ≡ i =
                some_inj.0 (sym (rw (same, code_of) refl) ∙ found) in
              let here : length d ≡ i = sym (mod-eq_of_lt small) ∙ place in
              subst (λ k. get_elem? (d ++ (intern v ∷ [])) k ≡ some (intern b)) here
                (get_elem?-snoc d (intern v)
                  ∙ ap (λ w. some (intern w)) (sym (bytes_eq→eq b v same)))
          | inr other ↦
              get_elem?-append d (intern v ∷ []) i (h b i (sym (rw (other, code_of) refl) ∙ found))
        ],
  )

  merge_entries-Extends :
      (buf : Bytes) (spans : List (ℕ × ℕ)) (st : List Ptr × Index)
      → Extends st (merge_entries host buf spans st)
  unfolding merge_entries
  merge_entries-Extends buf [] st = Extends-refl st
  merge_entries-Extends buf (span ∷ spans) (d, ix) =
      let v = slice buf span in
      elim (Option-cases (code_of v ix)) [
        | inl new ↦
            rw (new, merge_entries)
              (Extends-trans (d, ix) (d ++ (intern v ∷ []), (v, length d % 2 ^ 32) ∷ ix) _
                (add_value v d ix) (merge_entries-Extends buf spans _))
        | inr (i, old) ↦ rw (old, merge_entries) (merge_entries-Extends buf spans (d, ix))
      ]

  merge_pages-Extends :
      (pages : List (Result DictBuf × Bool)) (seen : List ℕ) (nulls nulls' : Bool)
      (st st' : List Ptr × Index)
      → merge_pages host pages seen nulls st ≡ ok (some (nulls', st'))
      → Extends st st'
  unfolding merge_pages
  merge_pages-Extends [] seen nulls nulls' st st' =
      λ got. subst (Extends st) (ap (λ p. p.1) (some_inj.0 (ok_inj got))) (Extends-refl st)
  merge_pages-Extends ((err e, may) ∷ pages) seen nulls nulls' st st' = λ got. cc
  merge_pages-Extends ((ok page, may) ∷ pages) seen nulls nulls' st st' =
      let merged = merge_entries host page.buf page.spans st in
      elim (List-cases page.spans) [
        | inl no_spans ↦ rw (no_spans, merge_pages) (λ got. cc)
        | inr (span, (spans, is)) ↦ elim (Bool-cases (member page.hash seen)) [
          | inl old ↦
              rw (is, old, merge_pages)
                (merge_pages-Extends pages seen (nulls || may) nulls' st st')
          | inr new ↦
              rw (is, new, merge_pages)
                (λ got. Extends-trans st merged st' (merge_entries-Extends page.buf page.spans st) (
                  merge_pages-Extends pages (page.hash ∷ seen) (nulls || may) nulls' merged st'
                    got))
        ]
      ]

  -- A plan whose codes stand for symbols: the code of a value, the code of an empty row, also where
  -- it is past the end of the dictionary, and both within what the host can index with.
  pub record IsPair (cd : Codes host) : Type 0 where
    pub right : IsUnion cd.d cd.ix
    pub blank : get_or cd.d cd.empty (intern []) ≡ intern []
    pub within : max (length cd.d) (cd.empty + 1) ≤ index_bound cd.lt

  plan_of-IsPair :
      (d : List Ptr) (ix : Index) (empty : ℕ)
      → length d < 2 ^ 31
      → empty ≤ length d
      → IsUnion d ix
      → get_or d empty (intern []) ≡ intern []
      → IsPair (plan_of host d ix empty)
  plan_of-IsPair d ix empty small near right blank = record {
    right = right;
    blank = blank;
    within = (codes_width_lem (max (length d) (empty + 1)) 0 (omega arith)).0;
  }

  -- The empty text has a code.
  close_found :
      (nulls : Bool) (d : List Ptr) (ix : Index) (i : ℕ)
      → code_of [] ix ≡ some i
      → length (close_plan host nulls (d, ix)).d < 2 ^ 31
      → (length d < 2 ^ 32 → IsUnion d ix)
      → IsPair (close_plan host nulls (d, ix))
  unfolding close_plan
  close_found nulls d ix i found =
      rw (found, close_plan)
        (λ small goal.
          let right = goal (omega (arith, small)) in
          let at = right [] i found in
          plan_of-IsPair d ix i small (omega (arith, get_elem?_bound d i at)) right
            (get_or_found d i (intern []) at))

  close_plan-IsPair :
      (nulls : Bool) (d : List Ptr) (ix : Index)
      → length (close_plan host nulls (d, ix)).d < 2 ^ 31
      → (length d < 2 ^ 32 → IsUnion d ix)
      → IsPair (close_plan host nulls (d, ix))
  unfolding close_plan
  close_plan-IsPair true d ix = elim (Option-cases (code_of [] ix)) [
    | inr (i, found) ↦ close_found true d ix i found
    | inl absent ↦
        rw (absent, close_plan)
          (λ small goal.
            let right = goal (omega (arith, length-snoc d (intern []), small)) in
            let more = length-snoc d (intern []) in
            let here : length d % 2 ^ 32 ≡ length d = mod-eq_of_lt (omega (arith, more, small)) in
            plan_of-IsPair (d ++ (intern [] ∷ [])) (([], length d % 2 ^ 32) ∷ ix)
              (length d % 2 ^ 32) small (omega (arith, more, here))
              ((add_value [] d ix).1 (omega (arith, small)) right)
              (rw here (
                get_or_found (d ++ (intern [] ∷ [])) (length d) (intern [])
                  (get_elem?-snoc d (intern [])))))
  ]
  close_plan-IsPair false d ix = elim (Option-cases (code_of [] ix)) [
    | inr (i, found) ↦ close_found false d ix i found
    | inl absent ↦
        rw (absent, close_plan)
          (λ small goal.
            let right = goal (omega (arith, length-snoc d (intern []), small)) in
            let here : length d % 2 ^ 32 ≡ length d = mod-eq_of_lt (omega (arith, small)) in
            plan_of-IsPair d ix (length d % 2 ^ 32) small (omega (arith, here)) right
              (rw here (get_or_past d (length d) (intern []) (omega arith))))
  ]

  -- A plan of fewer than 2 ^ 31 entries is right, whatever the dictionary pages hold and whichever of
  -- them the hash of their sets leaves out.
  pub codes_plan-IsPair :
      (panic : String) (all : Bool) (pages : Option (List (Result DictBuf × Bool)))
      (cd : Codes host)
      → codes_plan host panic all pages ≡ ok (some cd)
      → length cd.d < 2 ^ 31
      → IsPair cd
  unfolding codes_plan
  codes_plan-IsPair panic false pages cd = λ got. cc
  codes_plan-IsPair panic true none cd = λ got. cc
  codes_plan-IsPair panic true (some []) cd = λ got. cc
  codes_plan-IsPair panic true (some (page ∷ pages)) cd = λ got small.
      let (merged, is, closed) =
        bind_ok (merge_pages host (page ∷ pages) [] false ([], [])) _ got in
      go merged is (ok_inj closed) small
    where
      go :
          (merged : Option (Bool × (List Ptr × Index)))
          → merge_pages host (page ∷ pages) [] false ([], []) ≡ ok merged
          → (elim merged as (λ m. Option (Codes host)) [
            | none ↦ none
            | some (nulls, st) ↦ some (close_plan host nulls st)
          ])
            ≡ some cd
          → length cd.d < 2 ^ 31
          → IsPair cd
      go none is closed = cc
      go (some (nulls, (d, ix))) is closed =
          subst (λ cd. length cd.d < 2 ^ 31 → IsPair cd) (some_inj.0 closed)
            (λ small. close_plan-IsPair nulls d ix small (λ below.
              (merge_pages-Extends (page ∷ pages) [] false nulls ([], []) (d, ix) is).1 below
                (λ b i h. cc)))
