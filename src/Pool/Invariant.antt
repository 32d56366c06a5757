-- ===== src/Pool/Invariant.antt =====
-- src/pool.rs: what holds of the pool between two steps.
use parquet_interop.Prelude.{
  ℕ, ◌+◌, ◌≤◌, ◌<◌, ◌^◌, ◌≡◌, Bool, some, List, [], ◌∷◌, ◌==◌, ltb, if◌then◌else◌, length,
}
use parquet_interop.Prelude.Crew.{total, Each}
use parquet_interop.Pool.{
  Board, Worker, unborn, looking, parked, running, finishing, Caller, resting, working, joining,
  asleep, flag,
}
use parquet_interop.Pool.Threads.{Pool}

-- Whether a worker with this number that has seen `seen` is still to run the job.
abbrev pub due : ℕ → ℕ → ℕ → ℕ → ℕ
due gen want idx seen = if gen == seen then 0 else flag (ltb idx want)

module _ {J : Type 0} where
  abbrev pub owes : ℕ → ℕ → ℕ × Worker J → ℕ
  owes gen want (idx, unborn) = due gen want idx 0
  owes gen want (idx, looking seen) = due gen want idx seen
  owes gen want (idx, parked seen) = due gen want idx seen
  owes gen want (idx, running seen j) = 1
  owes gen want (idx, finishing seen bad) = 1

  -- The same for the worker with number `i`.
  abbrev pub owes_at : ℕ → ℕ → ℕ → ℕ × Worker J → ℕ
  owes_at i gen want w = if w.0 == i then owes gen want w else 0

  abbrev pub one : ℕ × Worker J → ℕ
  one w = 1

  abbrev pub is_at : ℕ → ℕ × Worker J → ℕ
  is_at i w = flag (w.0 == i)

  abbrev pub below : ℕ → ℕ × Worker J → ℕ
  below n w = flag (ltb w.0 n)

  abbrev pub born : ℕ × Worker J → ℕ
  born (idx, unborn) = 0
  born (idx, looking seen) = 1
  born (idx, parked seen) = 1
  born (idx, running seen j) = 1
  born (idx, finishing seen bad) = 1

  -- A worker that sleeps has seen the last dispatch, and one at work has the job of the board.
  abbrev pub WorkerOk : Board J → ℕ × Worker J → Type 0
  WorkerOk b (idx, unborn) = Unit
  WorkerOk b (idx, looking seen) = seen ≤ b.gen
  WorkerOk b (idx, parked seen) = seen ≡ b.gen
  WorkerOk b (idx, running seen j) = (seen ≡ b.gen) × (idx < b.want) × (b.job ≡ some j)
  WorkerOk b (idx, finishing seen bad) = (seen ≡ b.gen) × (idx < b.want)

  -- The board of a caller holds its job, and is settled when nobody calls.
  abbrev pub CallerOk : {V : Type 0} → Board J → Caller J V → Type 0
  CallerOk b resting = b.left ≡ 0
  CallerOk b (working j) = b.job ≡ some j
  CallerOk b (joining j v) = b.job ≡ some j
  CallerOk b (asleep j v) = (b.job ≡ some j) × (0 < b.left)

abbrev pub runs_of : ℕ → List (ℕ × Bool) → ℕ
runs_of i [] = 0
runs_of i ((idx, bad) ∷ ran) = flag (idx == i) + runs_of i ran

abbrev pub panics_of : List (ℕ × Bool) → ℕ
panics_of [] = 0
panics_of ((idx, bad) ∷ ran) = flag bad + panics_of ran

-- `k` dispatches were made to `n` threads.
pub record Inv (J V : Type 0) (n k : ℕ) (s : Pool J V) : Type 0 where
  pub dispatched : s.board.gen ≡ k
  pub workers_ok : Each (WorkerOk s.board) s.workers
  pub caller_ok : CallerOk s.board s.caller
  pub owed : s.board.left ≡ total (owes s.board.gen s.board.want) s.workers
  pub tally : length s.ran + s.board.left ≡ s.board.want
  pub in_range : s.board.want < 2 ^ 64
  pub counted : s.board.panics ≡ panics_of s.ran
  pub slots :
      (i : ℕ)
      → i < n
      → runs_of i s.ran + total (owes_at i s.board.gen s.board.want) s.workers
        ≡ flag (ltb i s.board.want)
  pub seats : (i : ℕ) → i < n → total (is_at i) s.workers ≡ 1
  pub crews : (m : ℕ) → m ≤ n → total (below m) s.workers ≡ m
  pub whole : total one s.workers ≡ n
  pub awake : s.ready ≡ total born s.workers
