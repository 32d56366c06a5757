-- ===== src/Pool/Sections.antt =====
-- src/pool.rs: what the lock sections of a worker and of the caller do to the invariant.
use parquet_interop.Prelude.{
  ℕ, ◌≤◌, ◌<◌, ◌≡◌, refl, arith, Bool, true, false, none, some, List, [], ◌∷◌, ◌==◌, ltb,
  if◌then◌else◌, length, Bool-cases, inl, inr,
}
use parquet_interop.Prelude.Crew.{total, Each}
use parquet_interop.Pool.{
  Board, Worker, unborn, looking, parked, running, finishing, Caller, resting, working, joining,
  asleep, flag, look, rouse_caller,
}
use parquet_interop.Pool.Invariant.{due, owes, born, WorkerOk, CallerOk, panics_of}

module _ {J : Type 0} where
  -- Nobody works on a board that is settled, so its job may go.
  pub settled_ok :
      (b : Board J) (ws : List (ℕ × Worker J))
      → total (owes b.gen b.want) ws ≡ 0
      → Each (WorkerOk b) ws
      → Each (WorkerOk (record b { job = none })) ws
  settled_ok b [] none_due ok = tt
  settled_ok b ((idx, unborn) ∷ ws) none_due ok = (tt, settled_ok b ws (omega arith) ok.1)
  settled_ok b ((idx, looking seen) ∷ ws) none_due ok = (ok.0, settled_ok b ws (omega arith) ok.1)
  settled_ok b ((idx, parked seen) ∷ ws) none_due ok = (ok.0, settled_ok b ws (omega arith) ok.1)
  settled_ok b ((idx, running seen j) ∷ ws) none_due ok = absurd (omega arith)
  settled_ok b ((idx, finishing seen bad) ∷ ws) none_due ok =
      (ok.0, settled_ok b ws (omega arith) ok.1)

  -- What a look at the board makes of a worker owes what the worker owed.
  pub record Looked (b : Board J) (idx seen : ℕ) (w : Worker J) : Type 0 where
    pub same_debt : owes b.gen b.want (idx, w) ≡ due b.gen b.want idx seen
    pub birth : born (idx, w) ≡ 1
    pub fine : WorkerOk b (idx, w)

module _ {J V : Type 0} where
  -- While a worker is due, the caller's job is on the board.
  job_there :
      (b : Board J) (c : Caller J V) → CallerOk b c → 0 < b.left → (j : J) × (b.job ≡ some j)
  job_there b resting ok more = absurd (omega arith)
  job_there b (working j) ok more = (j, ok)
  job_there b (joining j v) ok more = (j, ok)
  job_there b (asleep j v) ok more = (j, ok.0)

  pub look_lem :
      (b : Board J) (c : Caller J V) (idx seen : ℕ)
      → CallerOk b c
      → due b.gen b.want idx seen ≤ b.left
      → Looked b idx seen (look idx seen b)
  unfolding look
  look_lem b c idx seen ok debt = elim (Bool-cases (b.gen == seen)) [
    | inl seen_it ↦
        rw (seen_it, look)
          (record { same_debt = refl; birth = refl; fine = ground (arith, seen_it) })
    | inr new ↦ elim (Bool-cases (ltb idx b.want)) [
      | inr other ↦
          rw (new, other, look)
            (record { same_debt = ground (arith, new, other); birth = refl; fine = omega arith })
      | inl mine ↦
          let (j, there) = job_there b c ok (ground (arith, new, mine, debt)) in
          rw (new, mine, there, look)
            (record {
              same_debt = ground (arith, new, mine);
              birth = refl;
              fine = (refl, ground (arith, mine), refl);
            })
    ]
  ]

  -- The worker that finishes last wakes the caller, and only it does.
  pub called_lem :
      (b : Board J) (left : ℕ) (c : Caller J V)
      → CallerOk b c
      → 0 < b.left
      → CallerOk (record b { left = left }) (if left == 0 then rouse_caller c else c)
  called_lem b left resting ok more = absurd (omega arith)
  called_lem b left (working j) ok more = elim (Bool-cases (left == 0)) [
    | inl last ↦ rw last ok
    | inr others ↦ rw others ok
  ]
  called_lem b left (joining j v) ok more = elim (Bool-cases (left == 0)) [
    | inl last ↦ rw last ok
    | inr others ↦ rw others ok
  ]
  called_lem b left (asleep j v) ok more = elim (Bool-cases (left == 0)) [
    | inl last ↦ rw last (ok.0)
    | inr others ↦ rw others (ok.0, ground (arith, others))
  ]

pub flag-le : (b : Bool) → flag b ≤ 1
flag-le true = omega arith
flag-le false = omega arith

pub panics_of-le : (ran : List (ℕ × Bool)) → panics_of ran ≤ length ran
panics_of-le [] = omega arith
panics_of-le ((idx, true) ∷ ran) = omega (arith, panics_of-le ran)
panics_of-le ((idx, false) ∷ ran) = omega (arith, panics_of-le ran)
