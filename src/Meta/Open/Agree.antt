-- ===== src/Meta/Open/Agree.antt =====
-- src/meta.rs: the files of an open set present one table.
use Prim.Native.String.{String}
use text.Mathlib.TextEquality.{eq_iff}
use mathlib.Core.Path.{subst, ap₂}
use parquet_interop.Prelude.{
  ℕ, ◌≡◌, refl, sym, ap, ◌∙◌, true, inl, inr, Option, none, some, List, [], ◌∷◌, map, arith, ◌==◌,
  length, length-map, Bool-cases, Result, ok, ok_inj, bind_ok, err,
}
use parquet_interop.Mru.Laws.{All}
use parquet_interop.Types.{DataType, l_type_of}
use parquet_interop.Meta.Footers.{Field, FooterLib, Src}
use parquet_interop.Meta.Open.{
  collect, to_option, option_eq, names_agree, types_agree, column_type, Set, same_table, check_all,
  open_srcs, open_set,
}

names_agree_lem :
    (fs : List Field) (ns : List String)
    → length fs ≡ length ns
    → names_agree fs ns ≡ true
    → map (λ f. f.name) fs ≡ ns
unfolding names_agree
names_agree_lem [] [] len h = refl
names_agree_lem [] (n ∷ ns) len h = absurd (omega arith)
names_agree_lem (f ∷ fs) [] len h = absurd (omega arith)
names_agree_lem (f ∷ fs) (n ∷ ns) len h =
    let rest = names_agree_lem fs ns (omega arith) (ground arith) in
    let name = (eq_iff f.name n).0 (ground arith) in ap₂ ◌∷◌ name rest

option_eq→eq : (a b : Option ℕ) → option_eq a b ≡ true → a ≡ b
option_eq→eq none none h = refl
option_eq→eq none (some b) h = cc
option_eq→eq (some a) none h = cc
option_eq→eq (some a) (some b) h = ground arith

pub collect_lem {ℓ} :
    {A : Type ℓ} (rs : List (Result A)) (xs : List A) → collect rs ≡ ok xs → map ok xs ≡ rs
unfolding collect
collect_lem [] xs h = ap (map ok) (sym (ok_inj h))
collect_lem (err e ∷ rs) xs h = cc
collect_lem (ok x ∷ rs) xs h =
    let (ys, rest, whole) = bind_ok (collect rs) _ h in
    ap (map ok) (sym (ok_inj whole)) ∙ ap (◌∷◌ (ok x)) (collect_lem rs ys rest)

module _ (show : DataType → String) where
  -- The host types of a file's columns, none for a column without one.
  abbrev pub host_types : List Field → List (Option ℕ)
  host_types fs = map (λ f. to_option (l_type_of show f.data_type)) fs

  types_agree_lem :
      (fs : List Field) (ts : List (Result ℕ))
      → length fs ≡ length ts
      → types_agree show fs ts ≡ true
      → host_types fs ≡ map to_option ts
  unfolding types_agree
  types_agree_lem [] [] len h = refl
  types_agree_lem [] (t ∷ ts) len h = absurd (omega arith)
  types_agree_lem (f ∷ fs) [] len h = absurd (omega arith)
  types_agree_lem (f ∷ fs) (t ∷ ts) len h =
      ap₂ ◌∷◌ (option_eq→eq (to_option (l_type_of show f.data_type)) (to_option t) (ground arith))
        (types_agree_lem fs ts (omega arith) (ground arith))

  module _ (lib : FooterLib) where
    open lib use {Md, schema}

    -- A file presents the table of the set: the same names in order, and the same host types.
    pub record Presents (set : Set show lib) (s : Src lib) : Type 0 where
      pub same_names : map (λ f. f.name) (schema s.md).fields ≡ set.names
      pub same_types : host_types (schema s.md).fields ≡ map to_option set.lts

    column_type-to_option :
        (f : Field) → to_option (column_type show f) ≡ to_option (l_type_of show f.data_type)
    unfolding column_type
    column_type-to_option f = go (l_type_of show f.data_type) refl
      where
        go :
            (r : Result ℕ)
            → l_type_of show f.data_type ≡ r
            → to_option (column_type show f) ≡ to_option (l_type_of show f.data_type)
        go (ok t) e = rw (e, column_type)
        go (err m) e = rw (e, column_type)

    own_types : (fs : List Field) → host_types fs ≡ map to_option (map (column_type show) fs)
    own_types [] = refl
    own_types (f ∷ fs) = ap₂ ◌∷◌ (sym (column_type-to_option f)) (own_types fs)

    same_table-Presents :
        (set : Set show lib) (s : Src lib)
        → length set.names ≡ length set.lts
        → same_table show lib s set.names set.lts ≡ true
        → Presents set s
    unfolding same_table
    same_table-Presents set s len h = record {
      same_names = names_agree_lem (schema s.md).fields set.names (ground arith) (ground arith);
      same_types =
          types_agree_lem (schema s.md).fields set.lts (ground (arith, len)) (ground arith);
    }

    check_all-Presents :
        (who : String) (set : Set show lib) (ss : List (Src lib))
        → length set.names ≡ length set.lts
        → check_all show lib who ss set.names set.lts ≡ ok tt
        → All (Presents set) ss
    unfolding check_all
    check_all-Presents who set [] len h = tt
    check_all-Presents who set (s ∷ ss) len h =
        elim (Bool-cases (same_table show lib s set.names set.lts)) [
          | inl same ↦ (
            same_table-Presents set s len same,
            check_all-Presents who set ss len (rw (same, check_all) at h),
          )
          | inr other ↦ cc (rw (other, check_all) at h)
        ]

    open_srcs-Presents :
        (who : String) (srcs : List (Src lib)) (set : Set show lib)
        → open_srcs show lib who srcs ≡ ok set
        → (set.srcs ≡ srcs) × All (Presents set) set.srcs
    unfolding open_srcs
    open_srcs-Presents who [] set h = cc
    open_srcs-Presents who (s0 ∷ ss) set h =
        let fields = (schema s0.md).fields in
        let made : Set show lib = record {
          srcs = s0 ∷ ss;
          names = map (λ f. f.name) fields;
          lts = map (column_type show) fields;
        } in
        let (agreed, checked, done) = bind_ok (check_all show lib who ss made.names made.lts) _ h in
        let same : made ≡ set = ok_inj done in
        let count : length made.names ≡ length made.lts =
          length-map fields (λ f. f.name) ∙ sym (length-map fields (column_type show)) in
        let rest = check_all-Presents who made ss count checked in
        subst (λ t. (t.srcs ≡ s0 ∷ ss) × All (Presents t) t.srcs) same
          (refl, (record { same_names = refl; same_types = own_types fields }, rest))

    -- An open set holds the files that were loaded, in order, and each presents its table: the
    -- columns have the set's names in the set's order and its host types, or have no host type
    -- where the set's column has none.
    pub open_set-Presents :
        (who : String) (files : ℕ) (loaded : List (Result (Src lib))) (set : Set show lib)
        → open_set show lib who files (some loaded) ≡ ok set
        → (map ok set.srcs ≡ loaded) × All (Presents set) set.srcs
    unfolding open_set
    open_set-Presents who files loaded set h = elim (Bool-cases (files == 0)) [
      | inl no_files ↦ cc (rw (no_files, open_set) at h)
      | inr some_files ↦
          let (srcs, collected, opened) =
            bind_ok (collect loaded) (open_srcs show lib who) (rw (some_files, open_set) at h) in
          let (same, presents) = open_srcs-Presents who srcs set opened in
          (ap (map ok) same ∙ collect_lem loaded srcs collected, presents)
    ]
