-- ===== src/Read/Select/Chosen.antt =====
-- src/read.rs, `select`: the columns are the wanted ones, and a column is zero-copy only if every
-- file stores it in the same flat way.
use Prim.Native.String.{String}
use text.Mathlib.TextEquality.{eq_iff}
use text.Mathlib.Text.{◌==◌ as str_eq}
use mathlib.Core.Path.{subst, ap₂}
use parquet_interop.Prelude.{
  ℕ, suc, ◌≡◌, refl, sym, ap, ◌∙◌, Bool, true, false, inl, inr, Option, none, some, List, [], ◌∷◌,
  map, arith, get_elem?, Bool-cases, Option-cases, Result, ok, err, ok_inj, bind_ok, if◌then◌else◌,
}
use parquet_interop.Types.{DataType, Raw, raw_of}
use parquet_interop.Mru.{position}
use parquet_interop.Mru.Laws.{All}
use parquet_interop.Meta.Footers.{FooterLib, Src}
use parquet_interop.Meta.Open.{collect, Set, leaf_of}
use parquet_interop.Meta.Open.Agree.{collect_lem}
use parquet_interop.Read.Window.{sort}
use parquet_interop.Read.Select.{
  dedup, raw_eq, column_of, type_at, Columns, Sel, raw_step, raw_loop, raw_column, wanted, select,
}

raw_eq→eq : (a b : Option Raw) → raw_eq a b ≡ true → a ≡ b
unfolding raw_eq
raw_eq→eq a b h = ground arith

get_elem?-position :
    (p : String → Bool) (names : List String) (i : ℕ)
    → position p names ≡ some i
    → (n : String) × (get_elem? names i ≡ some n) × (p n ≡ true)
unfolding position
get_elem?-position p [] i h = cc
get_elem?-position p (x ∷ xs) i h = elim (Bool-cases (p x)) [
  | inl here ↦ (x, ground arith, here)
  | inr there ↦ elim (Option-cases (position p xs)) [
    | inl nowhere ↦ cc (rw (there, nowhere, position) at h)
    | inr (j, at) ↦
        let next : i ≡ suc j = ground arith in
        let (n, is, found) = get_elem?-position p xs j at in (n, rw next is, found)
  ]
]

column_of_lem :
    (who : String) (names : List String) (n : String) (i : ℕ)
    → column_of who names n ≡ ok i
    → get_elem? names i ≡ some n
unfolding column_of
column_of_lem who names n i h = elim (Option-cases (position (λ x. str_eq x n) names)) [
  | inl nowhere ↦ cc (rw (nowhere, column_of) at h)
  | inr (j, at) ↦
      let same : j ≡ i = ok_inj (rw (at, column_of) at h) in
      let (m, is, found) = get_elem?-position (λ x. str_eq x n) names j at in
      rw (← same) (is ∙ ap some ((eq_iff m n).0 found))
]

type_at_lem :
    (lts : List (Result ℕ)) (c t : ℕ) → type_at lts c ≡ ok t → get_elem? lts c ≡ some (ok t)
unfolding type_at
type_at_lem lts c t h = elim (Option-cases (get_elem? lts c)) [
  | inl past ↦ cc (rw (past, type_at) at h)
  | inr (r, at) ↦ rw at (ap some (rw (at, type_at) at h))
]

-- A step that holds of every element of a list that was collected.
mapped {ℓ κ μ} :
    {A : Type ℓ} {B : Type κ} {C : Type μ} (f : A → Result B) (g : B → C) (k : A → C)
    → ((a : A) (b : B) → f a ≡ ok b → g b ≡ k a)
    → (xs : List A) (ys : List B) → map ok ys ≡ map f xs
    → map g ys ≡ map k xs
mapped f g k step [] [] h = refl
mapped f g k step [] (y ∷ ys) h = cc
mapped f g k step (x ∷ xs) [] h = cc
mapped f g k step (x ∷ xs) (y ∷ ys) h =
    let here : f x ≡ ok y = cc in
    let later : map ok ys ≡ map f xs = cc in ap₂ ◌∷◌ (step x y here) (mapped f g k step xs ys later)

accepted {ℓ} :
    {A : Type ℓ} (guard : Bool) (a b : A) (message : String)
    → (if guard then ok a else err message) ≡ ok b
    → a ≡ b
accepted true a b message h = ok_inj h
accepted false a b message h = cc

module _ (lib : FooterLib) (columns : Columns lib.Md) where
  -- A file stores column `c` in one flat leaf, and in the way `r`.
  pub record IsStored (c : ℕ) (r : Raw) (s : Src lib) : Type 0 where
    pub leaf : ℕ
    pub only : leaf_of lib s c ≡ some leaf
    pub same : raw_of (columns.field_type s.md c) (columns.physical_type s.md leaf) ≡ some r
    pub flat : columns.max_rep_level s.md leaf ≡ 0

  raw_step_first :
      (s : Src lib) (c l : ℕ) (before : Option Raw) (r : Raw)
      → leaf_of lib s c ≡ some l
      → raw_step lib columns s c l true before ≡ some r
      → IsStored c r s
  unfolding raw_step
  raw_step_first s c l before r at h = record {
    leaf = l;
    only = at;
    same = ground arith;
    flat = ground arith;
  }

  raw_step_next :
      (s : Src lib) (c l : ℕ) (before : Option Raw) (r : Raw)
      → leaf_of lib s c ≡ some l
      → raw_step lib columns s c l false before ≡ some r
      → (before ≡ some r) × IsStored c r s
  unfolding raw_step
  raw_step_next s c l before r at h =
      let ri = raw_of (columns.field_type s.md c) (columns.physical_type s.md l) in
      let agreed : raw_eq ri before ≡ true = ground arith in
      let same : ri ≡ some r = ground arith in
      (
        sym (raw_eq→eq ri before agreed) ∙ same,
        record { leaf = l; only = at; same = same; flat = ground arith },
      )

  raw_loop_next :
      (c : ℕ) (ss : List (Src lib)) (before : Option Raw) (r : Raw)
      → raw_loop lib columns c ss false before ≡ some r
      → (before ≡ some r) × All (IsStored c r) ss
  unfolding raw_loop
  raw_loop_next c [] before r h = (h, tt)
  raw_loop_next c (s ∷ ss) before r h = elim (Option-cases (leaf_of lib s c)) [
    | inl no_leaf ↦ cc (rw (no_leaf, raw_loop) at h)
    | inr (l, at) ↦
        let (kept, rest) =
          raw_loop_next c ss (raw_step lib columns s c l false before) r (rw (at, raw_loop) at h) in
        let (first, stored) = raw_step_next s c l before r at kept in (first, (stored, rest))
  ]

  raw_column_lem :
      (srcs : List (Src lib)) (c : ℕ) (r : Raw)
      → raw_column lib columns srcs c ≡ some r
      → All (IsStored c r) srcs
  unfolding raw_column raw_loop
  raw_column_lem [] c r h = tt
  raw_column_lem (s ∷ ss) c r h = elim (Option-cases (leaf_of lib s c)) [
    | inl no_leaf ↦ cc (rw (no_leaf, raw_loop) at h)
    | inr (l, at) ↦
        let (kept, rest) =
          raw_loop_next c ss (raw_step lib columns s c l true none) r (rw (at, raw_loop) at h) in
        (raw_step_first s c l none r at kept, rest)
  ]

  -- A zero-copy column is stored by every file in one flat leaf and in one way.
  abbrev pub IsRaw : List (Src lib) → ℕ × Option Raw → Type 0
  IsRaw srcs (c, none) = Unit
  IsRaw srcs (c, some r) = All (IsStored c r) srcs

  abbrev pub zip_raw : List ℕ → List (Option Raw) → List (ℕ × Option Raw)
  zip_raw (c ∷ cs) (r ∷ rs) = (c, r) ∷ zip_raw cs rs
  zip_raw _ _ = []

  raws_lem :
      (srcs : List (Src lib)) (out : List ℕ)
      → All (IsRaw srcs) (zip_raw out (map (raw_column lib columns srcs) out))
  raws_lem srcs [] = tt
  raws_lem srcs (c ∷ cs) = (one (raw_column lib columns srcs c) refl, raws_lem srcs cs)
    where
      one : (r : Option Raw) → raw_column lib columns srcs c ≡ r → IsRaw srcs (c, r)
      one none e = tt
      one (some r) e = raw_column_lem srcs c r e

  module _ (show : DataType → String) where
    -- A selection by names has, in the order of the names, the set's column of each name and its
    -- host type, and a column of it is zero-copy only if every file of the set stores it in one flat
    -- leaf, in the same way, unit included.
    pub select_lem :
        (set : Set show lib) (names : List String) (who : String) (sel : Sel)
        → select lib columns show set (some names) who ≡ ok sel
        → (map (get_elem? set.names) sel.out ≡ map some names)
          × (map (get_elem? set.lts) sel.out ≡ map (λ t. some (ok t)) sel.lts)
          × All (IsRaw set.srcs) (zip_raw sel.out sel.raw)
    unfolding select wanted
    select_lem set names who sel h =
        let (out, found, rest) = bind_ok (wanted lib columns show set (some names) who) _ h in
        let (lts, typed, made) = bind_ok (collect (map (type_at set.lts) out)) _ rest in
        let chosen : Sel = record {
          out = out;
          lts = lts;
          uniq = dedup (sort out);
          raw = map (raw_column lib columns set.srcs) out;
        } in
        let same : chosen ≡ sel = accepted _ chosen sel _ made in
        subst
          (λ t.
            (map (get_elem? set.names) t.out ≡ map some names)
            × (map (get_elem? set.lts) t.out ≡ map (λ x. some (ok x)) t.lts)
            × All (IsRaw set.srcs) (zip_raw t.out t.raw))
          same
          (
            mapped (column_of who set.names) (get_elem? set.names) some
                (λ n i e. column_of_lem who set.names n i e) names out
                (collect_lem (map (column_of who set.names) names) out found),
            sym (
                mapped (type_at set.lts) (λ t. some (ok t)) (get_elem? set.lts)
                  (λ c t e. sym (type_at_lem set.lts c t e)) out lts
                  (collect_lem (map (type_at set.lts) out) lts typed)),
            raws_lem set.srcs out,
          )
