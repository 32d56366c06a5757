-- ===== src/Pool/Threads.antt =====
-- src/pool.rs: the steps of the workers, and of the caller that holds `busy`, on the pool.
use parquet_interop.Prelude.{
  ℕ, zero, suc, ◌+◌, ◌<◌, ◌^◌, ◌≡◌, Bool, true, false, ◌||◌, Option, none, some, List, [], ◌∷◌, map,
  ◌==◌, if◌then◌else◌,
}
use parquet_interop.Prelude.Crew.{Change}
use parquet_interop.Pool.{
  Board, idle_board, Worker, unborn, looking, parked, finishing, Caller, resting, working, joining,
  asleep, serve_step, lend, rouse, run_step, rouse_caller, route, pooled,
}

-- The pool with the caller that holds `busy`; `ran` is the history of the job that is lent or was
-- last: the workers that have run it, and whether they panicked. `spoilt` tells that `busy` is poisoned,
-- which the panic of a `me` leaves behind.
pub record Pool (J V : Type 0) : Type 0 where
  pub board : Board J
  pub ready : ℕ
  pub workers : List (ℕ × Worker J)
  pub caller : Caller J V
  pub ran : List (ℕ × Bool)
  pub spoilt : Bool

module _ {J : Type 0} where
  -- A worker counts itself as it starts.
  abbrev pub is_unborn : Worker J → ℕ
  is_unborn unborn = 1
  is_unborn w = 0

  abbrev pub note_run : ℕ → Worker J → List (ℕ × Bool) → List (ℕ × Bool)
  note_run idx (finishing seen bad) ran = (idx, bad) ∷ ran
  note_run idx w ran = ran

  -- The worker that finishes a job last calls the one who waits for it.
  abbrev pub called : {V : Type 0} → Worker J → Board J → Caller J V → Caller J V
  called (finishing seen bad) b c = if b.left == 0 then rouse_caller c else c
  called w b c = c

  -- `n` threads, numbered from `i` on.
  abbrev pub crew : ℕ → ℕ → List (ℕ × Worker J)
  crew i zero = []
  crew i (suc n) = (i, unborn) ∷ crew (i + 1) n

-- `run` goes on to unwind with `busy` held.
abbrev pub unwound : {V : Type 0} → Option (Option (V × Bool)) → Bool
unwound (some none) = true
unwound a = false

module _ {J V : Type 0} where
  abbrev pub new_pool : ℕ → Pool J V
  new_pool n = record {
    board = idle_board;
    ready = 0;
    workers = crew 0 n;
    caller = resting;
    ran = [];
    spoilt = false;
  }

  -- The pool behind a step of a worker, and behind one of the caller.
  abbrev pub moved : Pool J V → ℕ → Worker J → List (ℕ × Worker J) → Board J → Pool J V
  moved s idx w ws b = record {
    board = b;
    ready = s.ready + is_unborn w;
    workers = ws;
    caller = called w b s.caller;
    ran = note_run idx w s.ran;
    spoilt = s.spoilt;
  }

  abbrev pub advanced : Pool J V → Caller J V → Board J → Option (Option (V × Bool)) → Pool J V
  advanced s c b a = record s { caller = c; board = b; spoilt = s.spoilt || unwound a }

  -- The pool behind a dispatch.
  abbrev pub dispatched : Pool J V → J → ℕ → Pool J V
  dispatched s j m = record s {
    board = lend j m s.board;
    workers = map (λ w. (w.0, rouse w.1)) s.workers;
    caller = working j;
    ran = [];
  }

  -- A step of one thread.
  pub data Step (s : Pool J V) : Pool J V → Type 0 where
    by_worker :
        (bad : Bool) (idx : ℕ) (w w' : Worker J) (ws : List (ℕ × Worker J)) (b : Board J)
        → serve_step bad idx w s.board ≡ some (w', b)
        → Change (idx, w) (idx, w') s.workers ws
        → Step s (moved s idx w ws b)
    by_caller :
        (r : Option V) (c : Caller J V) (b : Board J) (a : Option (Option (V × Bool)))
        → run_step r s.caller s.board ≡ some ((c, b), a)
        → Step s (advanced s c b a)

  -- A wait that ends without a notification.
  pub data Spurious (s : Pool J V) : Pool J V → Type 0 where
    worker_wakes :
        (idx seen : ℕ) (ws : List (ℕ × Worker J))
        → Change (idx, parked seen) (idx, looking seen) s.workers ws
        → Spurious s (moved s idx (parked seen) ws s.board)
    caller_wakes :
        (j : J) (v : Option V)
        → s.caller ≡ asleep j v
        → Spurious s (advanced s (joining j v) s.board none)

  -- A caller that the tests of `run` let through takes `busy` and lends its job.
  pub data Dispatch (size : ℕ) (s : Pool J V) : Pool J V → Type 0 where
    lent :
        (j : J) (n m : ℕ)
        → s.caller ≡ resting
        → n < 2 ^ 64
        → route false s.ready s.spoilt size n ≡ pooled m
        → Dispatch size s (dispatched s j m)

  -- The states after `k` dispatches, of a pool of which `n` threads could be made.
  pub data Reach (size n : ℕ) : ℕ → Pool J V → Type 0 where
    here : Reach size n 0 (new_pool n)
    next : {k : ℕ} {s t : Pool J V} → Reach size n k s → Step s t → Reach size n k t
    stray : {k : ℕ} {s t : Pool J V} → Reach size n k s → Spurious s t → Reach size n k t
    again : {k : ℕ} {s t : Pool J V} → Reach size n k s → Dispatch size s t → Reach size n (suc k) t
