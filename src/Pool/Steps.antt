-- ===== src/Pool/Steps.antt =====
-- src/pool.rs: every step keeps the invariant of the pool.
use mathlib.Core.Path.{subst}
use mathlib.Core.Option.{some_inj}
use parquet_interop.Prelude.{
  ℕ, ◌+◌, ◌≡◌, refl, ap, arith, Bool, Option, none, some, List, ◌==◌, if◌then◌else◌, Bool-cases,
  inl, inr,
}
use parquet_interop.Prelude.Crew.{Change, total-change, total-member-le, Each, Each-change}
use parquet_interop.Pool.{
  Board, Worker, unborn, looking, parked, running, finishing, Caller, resting, working, joining,
  asleep, dec, look, finish, serve_step, answer, join, run_step,
}
use parquet_interop.Pool.Threads.{
  Pool, is_unborn, note_run, called, moved, advanced, Step, by_worker, by_caller, Spurious,
  worker_wakes, caller_wakes,
}
use parquet_interop.Pool.Invariant.{
  due, owes, owes_at, one, is_at, below, born, WorkerOk, CallerOk, Inv,
}
use parquet_interop.Pool.Sections.{settled_ok, look_lem, called_lem, flag-le, panics_of-le}

module _ {J V : Type 0} (n k : ℕ) where
  -- A step of a worker that changes neither what it owes nor the board.
  quiet :
      (s : Pool J V) (idx : ℕ) (w w' : Worker J) (ws : List (ℕ × Worker J))
      → Change (idx, w) (idx, w') s.workers ws
      → owes s.board.gen s.board.want (idx, w') ≡ owes s.board.gen s.board.want (idx, w)
      → born (idx, w') ≡ born (idx, w) + is_unborn w
      → called w s.board s.caller ≡ s.caller
      → note_run idx w s.ran ≡ s.ran
      → WorkerOk s.board (idx, w')
      → Inv J V n k s
      → Inv J V n k (moved s idx w ws s.board)
  quiet s idx w w' ws change same_debt birth same_caller same_ran fine h =
      let g = s.board.gen in
      let t = s.board.want in
      rw (same_caller, same_ran)
        (record {
          dispatched = h.dispatched;
          workers_ok = (Each-change (WorkerOk s.board) change h.workers_ok).1 fine;
          caller_ok = h.caller_ok;
          owed = omega (arith, h.owed, total-change (owes g t) change, same_debt);
          tally = h.tally;
          in_range = h.in_range;
          counted = h.counted;
          slots = λ i below_n. omega (
            arith,
            h.slots i below_n,
            total-change (owes_at i g t) change,
            ap (λ o. if idx == i then o else 0) same_debt,
          );
          seats = λ i below_n. omega (arith, h.seats i below_n, total-change (is_at i) change);
          crews = λ m most. omega (arith, h.crews m most, total-change (below m) change);
          whole = omega (arith, h.whole, total-change one change);
          awake = omega (arith, h.awake, total-change born change, birth);
        })

  -- The step that ends a job.
  finished :
      (s : Pool J V) (idx seen : ℕ) (bad : Bool) (ws : List (ℕ × Worker J))
      → Change (idx, finishing seen bad) (idx, looking seen) s.workers ws
      → Inv J V n k s
      → Inv J V n k (moved s idx (finishing seen bad) ws (finish bad s.board))
  unfolding finish
  finished s idx seen bad ws change h =
      let g = s.board.gen in
      let t = s.board.want in
      let (seen_last, mine) = (Each-change (WorkerOk s.board) change h.workers_ok).0 in
      let some_left = total-member-le (owes g t) change in
      let settled : due g t idx seen ≡ 0 = ground (arith, seen_last) in
      record {
        dispatched = h.dispatched;
        workers_ok =
            (Each-change (WorkerOk s.board) change h.workers_ok).1 (omega (arith, seen_last));
        caller_ok =
            called_lem s.board (dec s.board.left) s.caller h.caller_ok
              (omega (arith, h.owed, some_left));
        owed = omega (
          arith,
          h.owed,
          total-change (owes g t) change,
          settled,
          some_left,
          h.tally,
          h.in_range,
        );
        tally = omega (arith, h.tally, h.owed, some_left, h.in_range);
        in_range = h.in_range;
        counted = omega (
          arith,
          h.counted,
          panics_of-le s.ran,
          h.tally,
          h.in_range,
          flag-le bad,
          h.owed,
          some_left,
        );
        slots = λ i below_n.
            ground (arith, h.slots i below_n, total-change (owes_at i g t) change, settled);
        seats = λ i below_n. omega (arith, h.seats i below_n, total-change (is_at i) change);
        crews = λ m most. omega (arith, h.crews m most, total-change (below m) change);
        whole = omega (arith, h.whole, total-change one change);
        awake = omega (arith, h.awake, total-change born change);
      }

  abbrev Kept : Pool J V → ℕ → Worker J → List (ℕ × Worker J) → Worker J × Board J → Type 0
  Kept s idx w ws (w', b) =
      Change (idx, w) (idx, w') s.workers ws → Inv J V n k s → Inv J V n k (moved s idx w ws b)

  serve-Inv :
      (s : Pool J V) (bad : Bool) (idx : ℕ) (w w' : Worker J) (ws : List (ℕ × Worker J))
      (b : Board J)
      → serve_step bad idx w s.board ≡ some (w', b)
      → Kept s idx w ws (w', b)
  unfolding serve_step
  serve-Inv s bad idx unborn w' ws b step =
      subst (Kept s idx unborn ws) (some_inj.0 step) (λ change h.
        quiet s idx unborn (looking 0) ws change refl (omega arith) refl refl (omega arith) h)
  serve-Inv s bad idx (looking seen) w' ws b step =
      subst (Kept s idx (looking seen) ws) (some_inj.0 step) (λ change h.
        let debt = total-member-le (owes s.board.gen s.board.want) change in
        let l = look_lem s.board s.caller idx seen h.caller_ok (omega (arith, h.owed, debt)) in
        quiet s idx (looking seen) (look idx seen s.board) ws change l.same_debt
          (omega (arith, l.birth)) refl refl l.fine h)
  serve-Inv s bad idx (parked seen) w' ws b step = cc
  serve-Inv s bad idx (running seen j) w' ws b step =
      subst (Kept s idx (running seen j) ws) (some_inj.0 step) (λ change h.
        let ok = (Each-change (WorkerOk s.board) change h.workers_ok).0 in
        quiet s idx (running seen j) (finishing seen bad) ws change refl (omega arith) refl refl
          (ok.0, ok.1) h)
  serve-Inv s bad idx (finishing seen panicked) w' ws b step =
      subst (Kept s idx (finishing seen panicked) ws) (some_inj.0 step)
        (finished s idx seen panicked ws)

  -- A step of the caller, to a state that fits the board.
  advance :
      (s : Pool J V) (c : Caller J V) (job : Option J) (a : Option (Option (V × Bool)))
      → Each (WorkerOk (record s.board { job = job })) s.workers
      → CallerOk (record s.board { job = job }) c
      → Inv J V n k s
      → Inv J V n k (advanced s c (record s.board { job = job }) a)
  advance s c job a workers_ok caller_ok h = record {
    dispatched = h.dispatched;
    workers_ok = workers_ok;
    caller_ok = caller_ok;
    owed = h.owed;
    tally = h.tally;
    in_range = h.in_range;
    counted = h.counted;
    slots = h.slots;
    seats = h.seats;
    crews = h.crews;
    whole = h.whole;
    awake = h.awake;
  }

  abbrev Called : Pool J V → (Caller J V × Board J) × Option (Option (V × Bool)) → Type 0
  Called s ((c, b), a) = Inv J V n k s → Inv J V n k (advanced s c b a)

  join-Inv :
      (s : Pool J V) (j : J) (v : Option V) → s.board.job ≡ some j → Called s (join j v s.board)
  unfolding join
  join-Inv s j v there = elim (Bool-cases (s.board.left == 0)) [
    | inl done ↦
        rw (done, join)
          (λ h.
            let settled : s.board.left ≡ 0 = ground (arith, done) in
            advance s resting none (some (answer v s.board.panics))
              (settled_ok s.board s.workers (omega (arith, h.owed, settled)) h.workers_ok) settled
              h)
    | inr more ↦
        rw (more, join)
          (λ h.
            advance s (asleep j v) s.board.job none h.workers_ok (there, ground (arith, more)) h)
  ]

  run-Inv :
      (s : Pool J V) (r : Option V) (c : Caller J V)
      (r' : (Caller J V × Board J) × Option (Option (V × Bool)))
      → s.caller ≡ c
      → run_step r c s.board ≡ some r'
      → Called s r'
  unfolding run_step
  run-Inv s r resting r' is step = cc
  run-Inv s r (working j) r' is step = subst (Called s) (some_inj.0 step) (λ h.
      advance s (joining j r) s.board.job none h.workers_ok
        (subst (CallerOk s.board) is h.caller_ok) h)
  run-Inv s r (joining j v) r' is step = λ h.
      subst (Called s) (some_inj.0 step) (join-Inv s j v (subst (CallerOk s.board) is h.caller_ok))
        h
  run-Inv s r (asleep j v) r' is step = cc

  pub Step-Inv : (s t : Pool J V) → Step s t → Inv J V n k s → Inv J V n k t
  Step-Inv s t (by_worker bad idx w w' ws b step change) h =
      serve-Inv s bad idx w w' ws b step change h
  Step-Inv s t (by_caller r c b a step) h = run-Inv s r s.caller ((c, b), a) refl step h

  pub Spurious-Inv : (s t : Pool J V) → Spurious s t → Inv J V n k s → Inv J V n k t
  Spurious-Inv s t (worker_wakes idx seen ws change) h =
      let ok = (Each-change (WorkerOk s.board) change h.workers_ok).0 in
      quiet s idx (parked seen) (looking seen) ws change refl (omega arith) refl refl
        (omega (arith, ok)) h
  Spurious-Inv s t (caller_wakes j v is) h =
      advance s (joining j v) s.board.job none h.workers_ok
        (subst (CallerOk s.board) is h.caller_ok).0 h
