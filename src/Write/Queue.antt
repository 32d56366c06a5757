-- ===== src/Write/Queue.antt =====
-- src/write.rs, the (row group × column) work queue: the state `Q` under the lock of `Shared`, and
-- what `worker` and `master` do to it in one hold of the lock. `W` is a column writer of the parquet
-- crate and `C` the chunk that it closes into.
pub mod Threads
pub mod Claims
pub mod Serial
pub mod Live
pub mod Progress
pub mod Bounded
use Prim.Native.String.{String}
use parquet_interop.Prelude.{
  ℕ, zero, suc, ◌+◌, ◌/◌, ◌%◌, Bool, true, false, not, ◌||◌, Option, none, some, List, [], ◌∷◌, map,
  ltb, leb, ◌==◌, if◌then◌else◌, get_elem?, set, Result, ok, err,
}

-- `BTreeMap` and `HashMap` by their entries, the latest first.
module _ {ℓ} {V : Type ℓ} where
  abbrev pub lookup : ℕ → List (ℕ × V) → Option V
  lookup k [] = none
  lookup k ((j, v) ∷ m) = if k == j then some v else lookup k m

  abbrev pub remove : ℕ → List (ℕ × V) → List (ℕ × V)
  remove k [] = []
  remove k ((j, v) ∷ m) = let rest = remove k m in if k == j then rest else (j, v) ∷ rest

  abbrev pub insert : ℕ → V → List (ℕ × V) → List (ℕ × V)
  insert k v m = (k, v) ∷ remove k m

pub record Q {ℓ κ} (W : Type ℓ) (C : Type κ) : Type (ℓ ⊔ κ) where
  pub next : ℕ
  pub head : ℕ
  pub wr : List (ℕ × List (Option W))
  pub done : List (ℕ × C)
  pub err : Option String

-- How the lock section that claims a task ends: with a return, a wait on `work`, a failure of
-- `get_column_writers`, a writer that is not there, or the task.
pub data Claim {ℓ} (W : Type ℓ) : Type ℓ where
  leaves waits : Claim W
  no_writers : String → Claim W
  lost : Claim W
  claimed : ℕ → ℕ → ℕ → W → Claim W

abbrev pub is_some {ℓ} : {A : Type ℓ} → Option A → Bool
is_some none = false
is_some (some a) = true

module _ {ℓ} {W : Type ℓ} where
  -- `v.get_mut(c)?.take()`: the writer, and the row group's writers without it.
  unfoldable pub take_at : ℕ → List (Option W) → Option W × List (Option W)
  take_at c [] = (none, [])
  take_at zero (w ∷ ws) = (w, none ∷ ws)
  take_at (suc c) (w ∷ ws) = let (found, rest) = take_at c ws in (found, w ∷ rest)

  -- `q.wr.get_mut(&g).and_then(..)`
  unfoldable pub take_writer :
      ℕ → ℕ → List (ℕ × List (Option W)) → Option W × List (ℕ × List (Option W))
  unfolding take_at
  take_writer g c [] = (none, [])
  take_writer g c ((j, v) ∷ m) =
      let (found, v') = take_at c v in
      let (later, rest) = take_writer g c m in
      if g == j then (found, (j, v') ∷ m) else (later, (j, v) ∷ rest)

module _ {ℓ κ} {W : Type ℓ} {C : Type κ} where
  -- `Q` as `write_table` makes it.
  abbrev pub new_queue : Q W C
  new_queue = record { next = 0; head = 0; wr = []; done = []; err = none }

  -- From `q.next = i + 1` to the end of the lock section.
  unfoldable pub hand_out : ℕ → ℕ → ℕ → ℕ → Q W C → Claim W × Q W C
  unfolding take_writer
  hand_out nc i g c q =
      let (found, wr) = take_writer g c q.wr in
      let wr' = if c + 1 == nc then remove g wr else wr in
      let q' = record q { next = i + 1; wr = wr' } in
      elim found [ none ↦ (lost, q') | some w ↦ (claimed i g c w, q') ]

  -- The lock section that claims a task. `writers` is what `get_column_writers` answers.
  unfoldable pub claim : ℕ → ℕ → ℕ → Result (List W) → Q W C → Claim W × Q W C
  unfolding hand_out
  claim nc ntasks window writers q =
      if is_some q.err || leb ntasks q.next
      then (leaves, q)
      else if not (ltb q.next (q.head + window))
      then (waits, q)
      else if q.next % nc == 0
      then elim writers [
        | ok ws ↦
            hand_out nc q.next (q.next / nc) (q.next % nc)
              (record q { wr = insert (q.next / nc) (map some ws) q.wr })
        | err e ↦ (no_writers e, q)
      ]
      else hand_out nc q.next (q.next / nc) (q.next % nc) q

  -- `q.done.insert(i, chunk)`
  abbrev pub put_chunk : ℕ → C → Q W C → Q W C
  put_chunk i x q = record q { done = insert i x q.done }

  -- `err.get_or_insert(e)` of `fail`: the first failure is kept.
  abbrev pub note_failure : String → Q W C → Q W C
  note_failure e q = record q { err = elim q.err [ none ↦ some e | some first ↦ some first ] }

  -- The master's lock section for chunk `i`: the chunk, or the failure that it returns with, or a
  -- wait on `master`.
  unfoldable pub take_chunk : ℕ → Q W C → (Option C × Option String) × Q W C
  take_chunk i q = elim (lookup i q.done) [
    | some x ↦ ((some x, none), record q { head = i + 1; done = remove i q.done })
    | none ↦ ((none, q.err), q)
  ]
