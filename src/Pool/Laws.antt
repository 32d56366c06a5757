-- ===== src/Pool/Laws.antt =====
-- src/pool.rs, `run`: the borrowed job outlives every use of it, each worker that is asked runs it
-- once, and the threads never deadlock.
use mathlib.Core.Path.{subst}
use mathlib.Core.Option.{some_inj}
use parquet_interop.Prelude.{
  ℕ, ◌≤◌, ◌<◌, ◌^◌, ◌≡◌, sym, ap, ◌∙◌, arith, Bool, Option, some, List, [], ◌∷◌, ◌++◌, ◌==◌, ltb,
  length, Bool-cases, inl, inr,
}
use parquet_interop.Prelude.Crew.{at, total, total-member-le, Each-change}
use parquet_interop.Pool.{
  Board, Worker, running, Caller, resting, working, joining, asleep, flag, answer, join, run_step,
}
use parquet_interop.Pool.Threads.{Pool, Reach}
use parquet_interop.Pool.Invariant.{owes, owes_at, WorkerOk, CallerOk, runs_of, panics_of}
use parquet_interop.Pool.Dispatch.{Reach-Inv}

module _ {J V : Type 0} where
  -- The caller is in the frame that lent the job.
  abbrev pub Lends : Caller J V → J → Type 0
  Lends resting j = ⊥
  Lends (working i) j = i ≡ j
  Lends (joining i v) j = i ≡ j
  Lends (asleep i v) j = i ≡ j

  lends_lem :
      (b : Board J) (c : Caller J V) (j : J)
      → CallerOk b c
      → 0 < b.left
      → b.job ≡ some j
      → Lends c j
  lends_lem b resting j ok more there = absurd (omega arith)
  lends_lem b (working i) j ok more there = some_inj.0 (sym ok ∙ there)
  lends_lem b (joining i v) j ok more there = some_inj.0 (sym ok ∙ there)
  lends_lem b (asleep i v) j ok more there = some_inj.0 (sym (ok.0) ∙ there)

module _ {J : Type 0} where
  owes_at-le :
      (i g t : ℕ) (ws : List (ℕ × Worker J)) → total (owes_at i g t) ws ≤ total (owes g t) ws
  owes_at-le i g t [] = omega arith
  owes_at-le i g t (w ∷ ws) = ground (arith, owes_at-le i g t ws)

module _ {J V : Type 0} where
  -- A wait that is over found every worker done.
  join_over :
      (j : J) (v : Option V) (b : Board J) (c : Caller J V) (b' : Board J) (a : Option (V × Bool))
      → join j v b ≡ ((c, b'), some a)
      → (b.left ≡ 0) × (c ≡ resting) × (a ≡ answer v b.panics)
  unfolding join
  join_over j v b c b' a = elim (Bool-cases (b.left == 0)) [
    | inl done ↦
        rw (done, join)
          (λ step. (
            ground (arith, done),
            sym (ap (λ r. r.0.0) step),
            some_inj.0 (sym (ap (λ r. r.1) step)),
          ))
    | inr more ↦ rw (more, join) (λ step. cc)
  ]

module _ {J V : Type 0} (size n k : ℕ) (few : k < 2 ^ 64) (s : Pool J V)
    (reached : Reach size n k s) where
  -- In a state that is reached by fewer than 2 ^ 64 dispatches, stray wake-ups among the steps, a
  -- worker runs a job only while the caller that lent this job is still in `run`.
  pub running-Lends :
      (idx seen : ℕ) (j : J) (pre post : List (ℕ × Worker J))
      → s.workers ≡ pre ++ ((idx, running seen j) ∷ post)
      → Lends s.caller j
  running-Lends idx seen j pre post here =
      let h = Reach-Inv n size k s few reached in
      let still = at pre post here here in
      let debt = total-member-le (owes s.board.gen s.board.want) still in
      lends_lem s.board s.caller j h.caller_ok (omega (arith, h.owed, debt))
        (Each-change (WorkerOk s.board) still h.workers_ok).0.2

  -- Where `run` gives its answer, in a state that is reached by fewer than 2 ^ 64 dispatches, it gives
  -- what `me` gave, with whether one of the runs of the job panicked; as many runs as workers were
  -- wanted are over, each wanted worker having made one and every other worker none.
  pub join-answer :
      (j : J) (v : Option V) (r : Option V) (c : Caller J V) (b : Board J) (a : Option (V × Bool))
      → s.caller ≡ joining j v
      → run_step r s.caller s.board ≡ some ((c, b), some a)
      → (c ≡ resting)
        × (a ≡ answer v (panics_of s.ran))
        × (length s.ran ≡ s.board.want)
        × ((i : ℕ) → i < n → runs_of i s.ran ≡ flag (ltb i s.board.want))
  unfolding run_step
  join-answer j v r c b a is step =
      let h = Reach-Inv n size k s few reached in
      let (done, rests, right) =
        join_over j v s.board c b a
          (some_inj.0 (subst (λ c0. run_step r c0 s.board ≡ some ((c, b), some a)) is step)) in
      (
        rests,
        right ∙ ap (answer v) h.counted,
        omega (arith, h.tally, done),
        λ i below_n. omega (
          arith,
          h.slots i below_n,
          owes_at-le i s.board.gen s.board.want s.workers,
          h.owed,
          done,
        ),
      )
