-- ===== src/Meta/Open.antt =====
-- src/meta.rs, `open`: the files of a set and the table that they agree on; and what `pq_meta`
-- tells of their chunks (`chunk`, `sizes`, `enc_of`).
pub mod Agree
pub mod Enc
use Prim.Native.String.{String, ◌++◌ as str_append}
use text.Mathlib.Text.{◌==◌ as str_eq}
use parquet_interop.Prelude.{
  ℕ, zero, suc, ◌+◌, Bool, true, false, ◌&&◌, Option, none, some, List, [], ◌∷◌, map, ltb, ◌==◌,
  if◌then◌else◌, length, get_elem?, Result, ok, err, ◌>>=◌,
}
use parquet_interop.Prelude.Int.{ℤ, pos, ◌+ℤ◌, wrap}
use parquet_interop.Types.{DataType, l_type_of}
use parquet_interop.Meta.Footers.{Field, Schema, FooterLib, Src, sum_from, sum_i64}

-- `push(r?)` for each loaded file: the first error is the answer.
unfoldable pub collect {ℓ} : {A : Type ℓ} → List (Result A) → Result (List A)
collect [] = ok []
collect (r ∷ rs) = do x ← r; xs ← collect rs; ok (x ∷ xs)

-- `as_ref().ok().copied()`
abbrev pub to_option {ℓ} : {A : Type ℓ} → Result A → Option A
to_option (ok a) = some a
to_option (err e) = none

abbrev pub option_eq : Option ℕ → Option ℕ → Bool
option_eq none none = true
option_eq (some a) (some b) = a == b
option_eq _ _ = false

-- The names of a file against those of the set, and the types, as `zip` pairs them.
unfoldable pub names_agree : List Field → List String → Bool
names_agree (f ∷ fs) (n ∷ ns) = str_eq f.name n && names_agree fs ns
names_agree _ _ = true

module _ (show : DataType → String) where
  unfoldable pub types_agree : List Field → List (Result ℕ) → Bool
  types_agree (f ∷ fs) (t ∷ ts) =
      option_eq (to_option (l_type_of show f.data_type)) (to_option t) && types_agree fs ts
  types_agree _ _ = true

  -- The type of a column, or the message that it has none.
  unfoldable pub column_type : Field → Result ℕ
  column_type f = elim (l_type_of show f.data_type) [
    | ok t ↦ ok t
    | err _ ↦
        err (str_append "nyi: column " (str_append f.name (str_append " type " (show f.data_type))))
  ]

  module _ (lib : FooterLib) where
    open lib use {Md, schema}

    pub record Set : Type 0 where
      pub srcs : List (Src lib)
      pub names : List String
      pub lts : List (Result ℕ)

    unfoldable pub same_table : Src lib → List String → List (Result ℕ) → Bool
    unfolding names_agree types_agree
    same_table s names lts =
        let f = (schema s.md).fields in
        length f == length names && names_agree f names && types_agree f lts

    -- The loop over the files behind the first.
    unfoldable pub check_all :
        String → List (Src lib) → List String → List (Result ℕ) → Result (Unit {0})
    unfolding same_table
    check_all who [] names lts = ok tt
    check_all who (s ∷ ss) names lts =
        let rest = check_all who ss names lts in
        if same_table s names lts
        then rest
        else err (str_append who (str_append ": schema " s.orig))

    unfoldable pub open_srcs : String → List (Src lib) → Result Set
    unfolding check_all column_type
    open_srcs who [] = err "index out of bounds"
    open_srcs who (s0 ∷ ss) = do
      let names = map (λ f. f.name) (schema s0.md).fields
      let lts = map column_type (schema s0.md).fields
      agreed ← check_all who ss names lts
      ok (record { srcs = s0 ∷ ss; names = names; lts = lts })

    -- `loaded` are the answers of `load` for the files in order, none if one panicked.
    unfoldable pub open_set : String → ℕ → Option (List (Result (Src lib))) → Result Set
    unfolding collect open_srcs
    open_set who files loaded =
        if files == 0 then err (str_append who ": no files") else elim loaded [
          | none ↦ err (str_append who ": footer panic")
          | some out ↦ do srcs ← collect out; open_srcs who srcs
        ]

module _ (lib : FooterLib) where
  open lib use {Md}

  -- Row groups and rows across every file.
  unfoldable pub n_rg : List (Src lib) → ℕ
  n_rg [] = 0
  n_rg (s ∷ ss) = length s.rg_rows + n_rg ss

  unfoldable pub rows : List (Src lib) → ℤ
  rows srcs = sum_i64 (map (λ s. sum_i64 s.rg_rows) srcs)

  -- `leaf.get(c).copied().flatten()`
  unfoldable pub leaf_of : Src lib → ℕ → Option ℕ
  leaf_of s c = elim (get_elem? s.leaf c) [ none ↦ none | some l ↦ l ]

  -- What a chunk's metadata tells, by row group and leaf: whether it has a dictionary page.
  module _ (dict_offset : Md → ℕ → ℕ → Bool) where
    unfoldable pub chunk_dict : Src lib → ℕ → ℕ → Bool
    unfolding leaf_of
    chunk_dict s g c = elim (leaf_of s c) [ none ↦ false | some l ↦ dict_offset s.md g l ]

    -- `for g in 0..s.rg_rows.len()`, with `left` row groups to go.
    unfoldable pub enc_groups : ℕ → Src lib → ℕ → ℕ → Bool → Bool
    unfolding chunk_dict
    enc_groups c s g zero all = all
    enc_groups c s g (suc left) all = enc_groups c s (g + 1) left (all && chunk_dict s g c)

    unfoldable pub enc_files : ℕ → List (Src lib) → Bool → Bool
    unfolding enc_groups
    enc_files c [] all = all
    enc_files c (s ∷ ss) all = enc_files c ss (enc_groups c s 0 (length s.rg_rows) all)

    -- The answer of `enc_of` for column `c`.
    unfoldable pub enc_of : List (Src lib) → ℕ → Bool
    unfolding enc_files n_rg
    enc_of srcs c = enc_files c srcs (ltb 0 (n_rg srcs))
