-- ===== src/Pool/Ends.antt =====
-- src/pool.rs: the threads of the pool never deadlock, and a dispatch comes to its end.
use mathlib.Core.Path.{subst}
use mathlib.Core.Option.{some_inj}
use parquet_interop.Prelude.{
  ℕ, zero, suc, ◌+◌, ◌*◌, ◌≤◌, ◌<◌, ◌^◌, ◌≡◌, refl, ap, ◌∙◌, arith, Bool, true, false, Option, none,
  some, List, [], ◌∷◌, ◌==◌, ltb, if◌then◌else◌, Bool-cases, inl, inr, ◌⊎◌, Option-cases,
}
use parquet_interop.Prelude.Crew.{Change, at, total, total-change, Each, Each-change}
use parquet_interop.Pool.{
  Board, Worker, unborn, looking, parked, running, finishing, Caller, resting, working, joining,
  asleep, look, finish, serve_step, join, run_step, rouse_caller,
}
use parquet_interop.Pool.Threads.{Pool, moved, advanced, Step, by_worker, by_caller, Reach, next}
use parquet_interop.Pool.Invariant.{due, owes, one, WorkerOk, CallerOk, Inv}
use parquet_interop.Pool.Dispatch.{Reach-Inv}

fresh_look-le : (gen : ℕ) → (if gen == 0 then 1 else 5) ≤ 5
fresh_look-le gen = ground arith

old_look-le : (gen seen : ℕ) → seen ≡ gen → (if gen == seen then 1 else 5) ≤ 1
old_look-le gen seen same = ground (arith, same)

module _ {J : Type 0} where
  -- The steps that a worker can still take, and one for the caller that it may wake.
  abbrev weight : ℕ → ℕ × Worker J → ℕ
  weight gen (idx, unborn) = 6
  weight gen (idx, looking seen) = if gen == seen then 1 else 5
  weight gen (idx, parked seen) = 0
  weight gen (idx, running seen j) = 4
  weight gen (idx, finishing seen bad) = 3

  weight-le : (gen : ℕ) (ws : List (ℕ × Worker J)) → total (weight gen) ws ≤ 6 * total one ws
  weight-le gen [] = omega arith
  weight-le gen ((idx, unborn) ∷ ws) = omega (arith, weight-le gen ws)
  weight-le gen ((idx, looking seen) ∷ ws) = ground (arith, weight-le gen ws)
  weight-le gen ((idx, parked seen) ∷ ws) = omega (arith, weight-le gen ws)
  weight-le gen ((idx, running seen j) ∷ ws) = omega (arith, weight-le gen ws)
  weight-le gen ((idx, finishing seen bad) ∷ ws) = omega (arith, weight-le gen ws)

  look-weight :
      (b : Board J) (idx seen : ℕ)
      → weight b.gen (idx, look idx seen b) < weight b.gen (idx, looking seen)
  unfolding look
  look-weight b idx seen = elim (Bool-cases (b.gen == seen)) [
    | inl seen_it ↦ rw (seen_it, look) (omega arith)
    | inr new ↦ elim (Option-cases (if ltb idx b.want then b.job else none)) [
      | inl not_mine ↦ rw (new, not_mine, look) (ground arith)
      | inr (j, mine) ↦ rw (new, mine, look) (omega arith)
    ]
  ]

  abbrev pub IsParked : ℕ × Worker J → Type 0
  IsParked w = (seen : ℕ) × (w.1 ≡ parked seen)

  -- A worker that can move, or none.
  find_mover :
      (b : Board J) (ws : List (ℕ × Worker J))
      → ((idx : ℕ) × (w : Worker J) × (r : Worker J × Board J) × (ws' : List (ℕ × Worker J))
          × (serve_step false idx w b ≡ some r)
          × Change (idx, w) (idx, r.0) ws ws')
        ⊎ Each IsParked ws
  unfolding serve_step
  find_mover b [] = inr tt
  find_mover b ((idx, unborn) ∷ ws) = inl (idx, unborn, (looking 0, b), _, refl, at [] ws refl refl)
  find_mover b ((idx, looking seen) ∷ ws) =
      inl (idx, looking seen, (look idx seen b, b), _, refl, at [] ws refl refl)
  find_mover b ((idx, running seen j) ∷ ws) =
      inl (idx, running seen j, (finishing seen false, b), _, refl, at [] ws refl refl)
  find_mover b ((idx, finishing seen bad) ∷ ws) =
      inl (idx, finishing seen bad, (looking seen, finish bad b), _, refl, at [] ws refl refl)
  find_mover b ((idx, parked seen) ∷ ws) = elim (find_mover b ws) [
    | inl (i, w, r, ws', step, at pre post e f) ↦ inl (
      i,
      w,
      r,
      (idx, parked seen) ∷ ws',
      step,
      at ((idx, parked seen) ∷ pre) post (ap (◌∷◌ (idx, parked seen)) e)
          (ap (◌∷◌ (idx, parked seen)) f),
    )
    | inr quiet ↦ inr ((seen, refl), quiet)
  ]

  parked_owe_none :
      (b : Board J) (ws : List (ℕ × Worker J))
      → Each IsParked ws
      → Each (WorkerOk b) ws
      → total (owes b.gen b.want) ws ≡ 0
  parked_owe_none b [] quiet ok = refl
  parked_owe_none b ((idx, unborn) ∷ ws) (is, quiet) ok = cc
  parked_owe_none b ((idx, looking seen) ∷ ws) (is, quiet) ok = cc
  parked_owe_none b ((idx, running seen j) ∷ ws) (is, quiet) ok = cc
  parked_owe_none b ((idx, finishing seen bad) ∷ ws) (is, quiet) ok = cc
  parked_owe_none b ((idx, parked seen) ∷ ws) (is, quiet) ok =
      let settled : due b.gen b.want idx seen ≡ 0 = ground (arith, ok.0) in
      omega (arith, settled, parked_owe_none b ws quiet ok.1)

module _ {J V : Type 0} where
  abbrev caller_weight : Caller J V → ℕ
  caller_weight resting = 0
  caller_weight (working j) = 2
  caller_weight (joining j v) = 1
  caller_weight (asleep j v) = 0

  caller_weight-le : (c : Caller J V) → caller_weight c ≤ 2
  caller_weight-le resting = omega arith
  caller_weight-le (working j) = omega arith
  caller_weight-le (joining j v) = omega arith
  caller_weight-le (asleep j v) = omega arith

  rouse_caller-weight :
      (last : Bool) (c : Caller J V)
      → caller_weight (if last then rouse_caller c else c) ≤ caller_weight c + 1
  rouse_caller-weight true resting = omega arith
  rouse_caller-weight true (working j) = omega arith
  rouse_caller-weight true (joining j v) = omega arith
  rouse_caller-weight true (asleep j v) = omega arith
  rouse_caller-weight false c = omega arith

  abbrev measure : Pool J V → ℕ
  measure s = total (weight s.board.gen) s.workers + caller_weight s.caller

  abbrev Less : Pool J V → ℕ → Worker J → List (ℕ × Worker J) → Worker J × Board J → Type 0
  Less s idx w ws (w', b) =
      Change (idx, w) (idx, w') s.workers ws → measure (moved s idx w ws b) < measure s

  serve-Less :
      (s : Pool J V) (bad : Bool) (idx : ℕ) (w : Worker J) (ws : List (ℕ × Worker J))
      (r : Worker J × Board J)
      → WorkerOk s.board (idx, w)
      → serve_step bad idx w s.board ≡ some r
      → Less s idx w ws r
  unfolding serve_step finish
  serve-Less s bad idx unborn ws r ok step =
      subst (Less s idx unborn ws) (some_inj.0 step) (λ change.
        let light = fresh_look-le s.board.gen in
        omega (arith, total-change (weight s.board.gen) change, light))
  serve-Less s bad idx (looking seen) ws r ok step =
      subst (Less s idx (looking seen) ws) (some_inj.0 step) (λ change.
        omega (arith, total-change (weight s.board.gen) change, look-weight s.board idx seen))
  serve-Less s bad idx (parked seen) ws r ok step = cc
  serve-Less s bad idx (running seen j) ws r ok step =
      subst (Less s idx (running seen j) ws) (some_inj.0 step)
        (λ change. omega (arith, total-change (weight s.board.gen) change))
  serve-Less s bad idx (finishing seen panicked) ws r ok step =
      subst (Less s idx (finishing seen panicked) ws) (some_inj.0 step) (λ change.
        let light = old_look-le s.board.gen seen ok.0 in
        omega (
          arith,
          total-change (weight s.board.gen) change,
          light,
          rouse_caller-weight ((finish panicked s.board).left == 0) s.caller,
        ))

  abbrev CallerLess : Pool J V → (Caller J V × Board J) × Option (Option (V × Bool)) → Type 0
  CallerLess s ((c, b), a) = measure (advanced s c b a) < measure s

  join-CallerLess :
      (s : Pool J V) (j : J) (v : Option V)
      → s.caller ≡ joining j v
      → CallerLess s (join j v s.board)
  unfolding join
  join-CallerLess s j v is = elim (Bool-cases (s.board.left == 0)) [
    | inl done ↦ rw (done, join) (omega (arith, ap caller_weight is))
    | inr more ↦ rw (more, join) (omega (arith, ap caller_weight is))
  ]

  run-CallerLess :
      (s : Pool J V) (v : Option V) (c : Caller J V)
      (r : (Caller J V × Board J) × Option (Option (V × Bool)))
      → s.caller ≡ c
      → run_step v c s.board ≡ some r
      → CallerLess s r
  unfolding run_step
  run-CallerLess s v resting r is step = cc
  run-CallerLess s v (working j) r is step =
      subst (CallerLess s) (some_inj.0 step) (omega (arith, ap caller_weight is))
  run-CallerLess s v (joining j w) r is step =
      subst (CallerLess s) (some_inj.0 step) (join-CallerLess s j w is)
  run-CallerLess s v (asleep j w) r is step = cc

  Step-less : (n k : ℕ) (s t : Pool J V) → Step s t → Inv J V n k s → measure t < measure s
  Step-less n k s t (by_worker bad idx w w' ws b step change) h =
      serve-Less s bad idx w ws (w', b) (Each-change (WorkerOk s.board) change h.workers_ok).0 step
        change
  Step-less n k s t (by_caller v c b a step) h = run-CallerLess s v s.caller ((c, b), a) refl step

  -- A caller that can move, or the end.
  caller_moves :
      (s : Pool J V) (c : Caller J V)
      → s.caller ≡ c
      → CallerOk s.board c
      → s.board.left ≡ 0
      → ((t : Pool J V) × Step s t) ⊎ (s.caller ≡ resting)
  unfolding run_step
  caller_moves s resting is ok done = inr is
  caller_moves s (working j) is ok done = inl (
    advanced s (joining j none) s.board none,
    by_caller none (joining j none) s.board none (rw is refl),
  )
  caller_moves s (joining j v) is ok done =
      let r = join j v s.board in
      inl (advanced s r.0.0 r.0.1 r.1, by_caller none r.0.0 r.0.1 r.1 (rw is refl))
  caller_moves s (asleep j v) is ok done = absurd (omega (arith, ok.1, done))

  -- The end of a dispatch: nobody calls, and every worker sleeps.
  abbrev pub IsQuiet : Pool J V → Type 0
  IsQuiet s = (s.caller ≡ resting) × Each IsParked s.workers

  progress_lem : (n k : ℕ) (s : Pool J V) → Inv J V n k s → ((t : Pool J V) × Step s t) ⊎ IsQuiet s
  progress_lem n k s h = elim (find_mover s.board s.workers) [
    | inl (idx, w, (w', b), ws, step, change) ↦
        inl (moved s idx w ws b, by_worker false idx w w' ws b step change)
    | inr quiet ↦
        let done : s.board.left ≡ 0 =
          h.owed ∙ parked_owe_none s.board s.workers quiet h.workers_ok in
        elim (caller_moves s s.caller refl h.caller_ok done) [
          | inl moves ↦ inl moves
          | inr rests ↦ inr (rests, quiet)
        ]
  ]

-- `m` steps, one after the other, without a dispatch or a stray wake-up between them.
pub data Run {J V : Type 0} : ℕ → Pool J V → Pool J V → Type 0 where
  done : {s : Pool J V} → Run 0 s s
  step : {m : ℕ} {s t u : Pool J V} → Step s t → Run m t u → Run (suc m) s u

module _ {J V : Type 0} (size n k : ℕ) (few : k < 2 ^ 64) where
  Run-less : (m : ℕ) (s t : Pool J V) → Run m s t → Reach size n k s → m + measure t ≤ measure s
  Run-less m s t done reached = omega arith
  Run-less (suc m) s u (step {t = t} first rest) reached = omega (
    arith,
    Step-less n k s t first (Reach-Inv n size k s few reached),
    Run-less m t u rest (next reached first),
  )

  -- From a state that is reached by fewer than 2 ^ 64 dispatches, a pool of `n` threads and its
  -- caller take at most 6 n + 2 steps without another dispatch or a stray wake-up.
  pub pool-bounded : (m : ℕ) (s t : Pool J V) → Reach size n k s → Run m s t → m ≤ 6 * n + 2
  pool-bounded m s t reached run =
      let h = Reach-Inv n size k s few reached in
      omega (
        arith,
        Run-less m s t run reached,
        weight-le s.board.gen s.workers,
        caller_weight-le s.caller,
        h.whole,
      )

  end_within :
      (fuel : ℕ) (s : Pool J V)
      → measure s ≤ fuel
      → Reach size n k s
      → (m : ℕ) × (t : Pool J V) × Run m s t × IsQuiet t
  end_within zero s near reached =
      let h = Reach-Inv n size k s few reached in
      elim (progress_lem n k s h) [
        | inr quiet ↦ (0, s, done, quiet)
        | inl (t, first) ↦ absurd (omega (arith, Step-less n k s t first h))
      ]
  end_within (suc fuel) s near reached =
      let h = Reach-Inv n size k s few reached in
      elim (progress_lem n k s h) [
        | inr quiet ↦ (0, s, done, quiet)
        | inl (t, first) ↦
            let (m, u, rest, quiet) =
              end_within fuel t (omega (arith, Step-less n k s t first h)) (next reached first) in
            (suc m, u, step first rest, quiet)
      ]

  -- From a state that is reached by fewer than 2 ^ 64 dispatches, some steps, none of them a dispatch
  -- or a stray wake-up, lead to where `run` is back and every worker is asleep.
  pub pool-ends :
      (s : Pool J V) → Reach size n k s → (m : ℕ) × (t : Pool J V) × Run m s t × IsQuiet t
  pool-ends s reached = end_within (measure s) s (omega arith) reached

  -- In a state that is reached by fewer than 2 ^ 64 dispatches, a thread can take a step without a
  -- stray wake-up, unless `run` is back and every worker is asleep: no wake-up is lost.
  pub pool-progress : (s : Pool J V) → Reach size n k s → ((t : Pool J V) × Step s t) ⊎ IsQuiet s
  pool-progress s reached = progress_lem n k s (Reach-Inv n size k s few reached)
