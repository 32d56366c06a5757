-- ===== src/Read/One.antt =====
-- src/read.rs, `one`: the columns of one part of a row group. What is written is the list of the
-- decoders' calls with the rows that each delivers for its output column: the number that `raw_col`
-- answers, and the rows of the batch for an array that is copied.
pub mod Tiles
pub mod Batches
pub mod Complete
use Prim.Native.String.{String}
use parquet_interop.Prelude.{
  ℕ, ◌+◌, ◌-◌, Option, none, some, List, [], ◌∷◌, ◌++◌, length, ◌==◌, if◌then◌else◌, Result, ok,
  err,
}
use parquet_interop.Read.Window.{Part}

pub record Call : Type 0 where
  pub out : ℕ
  pub from : ℕ
  pub rows : ℕ

-- What the file, the crates and the two column decoders give for the task: the row counts of the
-- batches, the rows that `raw_col` delivers for an output column and its leaf, and whether an
-- array can be copied for an output column, a column of the batch and a row.
pub record Source : Type 0 where
  pub opened : Result (Unit {0})
  pub cloned : Result (Unit {0})
  pub built : Result (Unit {0})
  pub leaf : ℕ → Option ℕ
  pub raw_col : ℕ → ℕ → Result ℕ
  pub batches : List (Result ℕ)
  pub copied : ℕ → ℕ → ℕ → Result (Unit {0})
  pub no_leaf : String
  pub wrong_rows : String

-- What was called, and how it ended.
abbrev pub Log {ℓ} : Type ℓ → Type ℓ
Log A = List Call × Result A

module _ {ℓ} {A : Type ℓ} where
  abbrev pub then_log {κ} : {B : Type κ} → Log B → (B → Log A) → Log A
  then_log (calls, err e) next = (calls, err e)
  then_log (calls, ok b) next = let rest = next b in (calls ++ rest.0, rest.1)

-- A decoder has delivered what it answers.
unfoldable pub delivered : ℕ → ℕ → Result ℕ → Log ℕ
delivered p off (err e) = ([], err e)
delivered p off (ok n) = (record { out = p; from = off; rows = n } ∷ [], ok n)

module _ (src : Source) where
  -- The loop over `part.raw`.
  unfoldable pub raw_loop : ℕ → ℕ → List ℕ → Log (Unit {0})
  unfolding delivered
  raw_loop off rows [] = ([], ok tt)
  raw_loop off rows (p ∷ ps) =
      let rest = raw_loop off rows ps in
      elim (src.leaf p) [
        | none ↦ ([], err src.no_leaf)
        | some leaf ↦
            then_log (delivered p off (src.raw_col p leaf))
              (λ n. if n == rows then rest else ([], err src.wrong_rows))
      ]

  -- The loop over `part.outs` and `part.bat`, for a batch of `n` rows.
  unfoldable pub copy_loop : ℕ → ℕ → List ℕ → List ℕ → Log (Unit {0})
  copy_loop off n [] bat = ([], ok tt)
  copy_loop off n (p ∷ ps) [] = ([], err "index out of bounds")
  copy_loop off n (p ∷ ps) (b ∷ bs) =
      let rest = copy_loop off n ps bs in
      then_log (record { out = p; from = off; rows = n } ∷ [], src.copied p b off) (λ done. rest)

  -- The loop over the batches, with the row that it ends at.
  unfoldable pub batch_loop : Part → ℕ → List (Result ℕ) → Log ℕ
  unfolding copy_loop
  batch_loop part off [] = ([], ok off)
  batch_loop part off (err e ∷ batches) = ([], err e)
  batch_loop part off (ok n ∷ batches) =
      let rest = batch_loop part (off + n) batches in
      then_log (copy_loop off n part.outs part.bat) (λ done. rest)

  -- From the reader's builder on.
  unfoldable pub arrow_cols : Part → ℕ → ℕ → Log (Unit {0})
  unfolding batch_loop
  arrow_cols part off rows =
      then_log ([], src.built)
        (λ ready.
          then_log (batch_loop part off src.batches)
            (λ end. ([], if end - off == rows then ok tt else err src.wrong_rows)))

  unfoldable pub one : Part → ℕ → ℕ → Log (Unit {0})
  unfolding raw_loop arrow_cols
  one part off rows =
      then_log ([], src.opened)
        (λ file.
          if length part.raw == 0
          then arrow_cols part off rows
          else then_log ([], src.cloned)
              (λ copy.
                then_log (raw_loop off rows part.raw) (λ done.
                  if length part.outs == 0 then ([], ok tt) else arrow_cols part off rows)))
