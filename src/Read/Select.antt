-- ===== src/Read/Select.antt =====
-- src/read.rs, `select`: the wanted columns of a set, their host types, and which of them decode
-- straight into the host's vectors.
pub mod Chosen
use Prim.Native.String.{String, ◌++◌ as str_append}
use text.Mathlib.Text.{◌==◌ as str_eq}
use parquet_interop.Prelude.{
  ℕ, zero, suc, ◌+◌, Bool, true, false, not, ◌&&◌, Option, none, some, List, [], ◌∷◌, map, ◌==◌,
  if◌then◌else◌, length, get_elem?, Result, ok, err, ◌>>=◌,
}
use parquet_interop.Types.{DataType, PhysType, Raw, raw_i32, raw_i64, raw_f32, raw_f64, raw_of}
use parquet_interop.Mru.{position}
use parquet_interop.Meta.Footers.{FooterLib, Src}
use parquet_interop.Meta.Open.{collect, Set, leaf_of}
use parquet_interop.Read.Window.{sort}

-- `dedup` on a sorted list.
unfoldable pub dedup_from : ℕ → List ℕ → List ℕ
dedup_from x [] = x ∷ []
dedup_from x (y ∷ ys) = let rest = dedup_from y ys in if x == y then rest else x ∷ rest

unfoldable pub dedup : List ℕ → List ℕ
unfolding dedup_from
dedup [] = []
dedup (x ∷ xs) = dedup_from x xs

-- `0..n`
abbrev pub range : ℕ → ℕ → List ℕ
range i zero = []
range i (suc n) = i ∷ range (i + 1) n

unfoldable pub raw_eq : Option Raw → Option Raw → Bool
raw_eq none none = true
raw_eq (some raw_i32) (some raw_i32) = true
raw_eq (some (raw_i64 m)) (some (raw_i64 n)) = m == n
raw_eq (some raw_f32) (some raw_f32) = true
raw_eq (some raw_f64) (some raw_f64) = true
raw_eq _ _ = false

-- The column of a wanted name.
unfoldable pub column_of : String → List String → String → Result ℕ
column_of who names n = elim (position (λ x. str_eq x n) names) [
  | none ↦ err (str_append who (str_append ": no column " n))
  | some i ↦ ok i
]

-- `lts[c].clone()?`; past the end is a panic.
unfoldable pub type_at : List (Result ℕ) → ℕ → Result ℕ
type_at lts c = elim (get_elem? lts c) [ none ↦ err "index out of bounds" | some r ↦ r ]

-- What the parquet crate tells of a file's columns: the type of a root's field, the physical type
-- and the repetition level of a leaf.
pub record Columns (Md : Type 0) : Type 0 where
  pub field_type : Md → ℕ → DataType
  pub physical_type : Md → ℕ → PhysType
  pub max_rep_level : Md → ℕ → ℕ

pub record Sel : Type 0 where
  pub out : List ℕ
  pub lts : List ℕ
  pub uniq : List ℕ
  pub raw : List (Option Raw)

module _ (lib : FooterLib) (columns : Columns lib.Md) where
  -- One round of the loop over the files, for column `c`, whose leaf is `l`.
  unfoldable pub raw_step : Src lib → ℕ → ℕ → Bool → Option Raw → Option Raw
  unfolding raw_of raw_eq
  raw_step s c l first r =
      let ri = raw_of (columns.field_type s.md c) (columns.physical_type s.md l) in
      let kept = if first then ri else if raw_eq ri r then ri else none in
      if columns.max_rep_level s.md l == 0 then kept else none

  -- A file without a leaf for the column ends the loop: `?` on an Option.
  unfoldable pub raw_loop : ℕ → List (Src lib) → Bool → Option Raw → Option Raw
  unfolding raw_step leaf_of
  raw_loop c [] first r = r
  raw_loop c (s ∷ ss) first r = elim (leaf_of lib s c) [
    | none ↦ none
    | some l ↦ raw_loop c ss false (raw_step s c l first r)
  ]

  unfoldable pub raw_column : List (Src lib) → ℕ → Option Raw
  unfolding raw_loop
  raw_column srcs c = raw_loop c srcs true none

  module _ (show : DataType → String) where
    -- The file columns of the wanted names; every column in order if none are named.
    unfoldable pub wanted : Set show lib → Option (List String) → String → Result (List ℕ)
    unfolding column_of collect
    wanted set none who = ok (range 0 (length set.names))
    wanted set (some w) who = collect (map (column_of who set.names) w)

    unfoldable pub select : Set show lib → Option (List String) → String → Result Sel
    unfolding wanted type_at collect dedup raw_column
    select set want who = do
      out ← wanted set want who
      lts ← collect (map (type_at set.lts) out)
      let uniq = dedup (sort out)
      if length uniq == length out
          then ok
              (record { out = out; lts = lts; uniq = uniq; raw = map (raw_column set.srcs) out })
          else err (str_append who ": duplicate column")
