-- ===== src/Read/Codes/Fill.antt =====
-- src/read.rs, `SymCache::lut`, `fill_codes` and `sym_codes`: the codes of a batch.
use parquet_interop.Prelude.{
  ℕ, ◌+◌, ◌%◌, ◌^◌, Bool, true, Option, none, some, List, [], ◌∷◌, ◌==◌, if◌then◌else◌, get_or, set,
  Result, ok, err, ◌>>=◌,
}
use parquet_interop.Prelude.Int.{ℤ, pos, wrap}
use parquet_interop.Types.{kg, kh}
use parquet_interop.Mru.{position, to_front, push_front}
use parquet_interop.Read.Fill.{null_rows}
use parquet_interop.Read.Symbols.{Bytes, Host, Arrays, SymCache, DictArray, dict_max}
use parquet_interop.Read.Codes.{Index, code_of, Codes}

-- A null value reads as the empty text.
abbrev pub text_of : Option Bytes → Bytes
text_of none = []
text_of (some b) = b

-- The loop over a dictionary's values: none from the first that is not in the union.
unfoldable pub union_ids : Index → List (Option Bytes) → Option (List ℕ)
unfolding code_of
union_ids ix [] = some []
union_ids ix (v ∷ vs) =
    let rest = union_ids ix vs in
    elim (code_of (text_of v) ix) [
      | none ↦ none
      | some id ↦ elim rest [ none ↦ none | some t ↦ some (id ∷ t) ]
    ]

-- `as u8`, `as i16` and `as i32`, by the type of the vector.
unfoldable pub as_code : ℕ → ℕ → ℤ
as_code lt id =
    if lt == kg
    then pos (id % 2 ^ 8)
    else if lt == kh
    then wrap (2 ^ 15) (pos id)
    else wrap (2 ^ 31) (pos id)

-- The loop over the keys, from row `i` on.
unfoldable pub store_codes : ℕ → List ℕ → ℕ → ℕ → List ℕ → List ℤ → List ℤ
unfolding as_code
store_codes lt ids e i [] dst = dst
store_codes lt ids e i (k ∷ ks) dst =
    store_codes lt ids e (i + 1) ks (set dst i (as_code lt (get_or ids k e)))

module _ (host : Host) (arrays : Arrays) where
  open host use {Ptr, intern}
  open arrays use {ArrayRef, ptr, utf8_of}

  -- `SymCache::lut`
  unfoldable pub lut_hit :
      SymCache host arrays
      → List (ArrayRef × Option (List ℕ))
      → Result (Option (List ℕ) × SymCache host arrays)
  lut_hit c [] = err "index out of bounds"
  lut_hit c (e ∷ rest) = ok (e.1, record c { luts = e ∷ rest })

  unfoldable pub lut_miss :
      SymCache host arrays → ArrayRef → Codes host → Result (Option (List ℕ) × SymCache host arrays)
  unfolding union_ids push_front
  lut_miss c vals cd = do
    sa ← utf8_of vals
    ok (
      union_ids cd.ix sa,
      record c { luts = push_front dict_max (vals, union_ids cd.ix sa) c.luts },
    )

  unfoldable pub lut :
      SymCache host arrays → ArrayRef → Codes host → Result (Option (List ℕ) × SymCache host arrays)
  unfolding lut_hit lut_miss position to_front
  lut c vals cd = elim (position (λ e. ptr e.0 == ptr vals) c.luts) [
    | some i ↦ lut_hit c (to_front i c.luts)
    | none ↦ lut_miss c vals cd
  ]

  -- The batch's answer: the vector of codes, the cache, and whether the column gives up its pair.
  unfoldable pub fill_codes :
      DictArray host arrays
      → Codes host
      → List ℤ
      → ℕ
      → SymCache host arrays
      → Bool
      → Result ((List ℤ × SymCache host arrays) × Bool)
  unfolding lut store_codes as_code null_rows
  fill_codes a cd dst off sy give = do
    (found, sy') ← lut sy a.dict_values cd
    ok (elim found [
      | none ↦ ((dst, sy'), true)
      | some ids ↦ (
        (
          null_rows (as_code cd.lt cd.empty) a.nulls off
              (store_codes cd.lt ids cd.empty off a.keys dst),
          sy',
        ),
        give,
      )
    ])

  -- A batch column: a dictionary array of a key width that `fill_codes` takes, or another array.
  -- The downcast of the first kind may fail.
  pub data SymArray : Type 0 where
    keyed : Option (DictArray host arrays) → SymArray
    plain : SymArray

  unfoldable pub sym_codes :
      SymArray
      → Codes host
      → List ℤ
      → ℕ
      → SymCache host arrays
      → Bool
      → Result ((List ℤ × SymCache host arrays) × Bool)
  unfolding fill_codes
  sym_codes (keyed none) cd dst off sy give = err "pq_read: dictionary layout"
  sym_codes (keyed (some a)) cd dst off sy give = fill_codes a cd dst off sy give
  sym_codes plain cd dst off sy give = ok ((dst, sy), true)
