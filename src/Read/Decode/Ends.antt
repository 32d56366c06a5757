-- ===== src/Read/Decode/Ends.antt =====
-- src/read.rs, `decode`: the threads come to an end.
use mathlib.Core.Path.{subst}
use mathlib.Core.Option.{some_inj}
use parquet_interop.Prelude.{
  ℕ, zero, suc, ◌+◌, ◌-◌, ◌*◌, ◌%◌, ◌^◌, ◌≤◌, ◌<◌, ◌≡◌, refl, ap, arith, Bool, false, ◌&&◌, not,
  some, List, [], ◌∷◌, leb, if◌then◌else◌, Bool-cases, inl, inr, ◌⊎◌,
}
use parquet_interop.Prelude.Crew.{Change, at, total, total-change}
use parquet_interop.Read.Decode.{
  Outcome, finished, panicked, refused, Body, testing, claiming, decoding, stopping, storing, ended,
  dead, Shared, State, after_task, body_step, Step, by_body, Reach, step,
}
use parquet_interop.Read.Decode.Steps.{Reach-Inv}
use parquet_interop.Read.Decode.Invariant.{is_ended, is_ended-le, is_busy, each, Inv}

-- The steps that a thread can still take before another claim.
abbrev weight : Body → ℕ
weight testing = 3
weight claiming = 2
weight (decoding i) = 5
weight (stopping e) = 4
weight (storing e) = 3
weight ended = 0
weight dead = 0

weight-le : (ws : List Body) → total weight ws ≤ 5 * total each ws
weight-le [] = omega arith
weight-le (testing ∷ ws) = omega (arith, weight-le ws)
weight-le (claiming ∷ ws) = omega (arith, weight-le ws)
weight-le (decoding i ∷ ws) = omega (arith, weight-le ws)
weight-le (stopping e ∷ ws) = omega (arith, weight-le ws)
weight-le (storing e ∷ ws) = omega (arith, weight-le ws)
weight-le (ended ∷ ws) = omega (arith, weight-le ws)
weight-le (dead ∷ ws) = omega (arith, weight-le ws)

after_task-weight : (o : Outcome) → weight (after_task o) ≤ 4
unfolding after_task
after_task-weight finished = omega arith
after_task-weight panicked = omega arith
after_task-weight (refused e) = omega arith

module _ (n : ℕ) (one : ℕ → Outcome) where
  abbrev measure : State → ℕ
  measure s = total weight s.bodies + 4 * (n - s.shared.next)

  abbrev Less : State → Body → List Body → Body × Shared → Type 0
  Less s w ws (w', sh) =
      Change w w' s.bodies ws → measure (record { shared = sh; bodies = ws }) < measure s

  test-Less :
      (s : State) (ws : List Body) (late : Bool)
      → Less s testing ws (if s.shared.stop && not late then ended else claiming, s.shared)
  test-Less s ws late = elim (Bool-cases (s.shared.stop && not late)) [
    | inl seen ↦ rw seen (λ change. omega (arith, total-change weight change))
    | inr go_on ↦ rw go_on (λ change. omega (arith, total-change weight change))
  ]

  claim-Less :
      (threads : ℕ) (s : State) (ws : List Body)
      → n + threads < 2 ^ 64
      → Inv n one threads s
      → Less s claiming ws (
        (if leb n s.shared.next then ended else decoding s.shared.next),
        record s.shared { next = (s.shared.next + 1) % 2 ^ 64 },
      )
  claim-Less threads s ws room h = elim (Bool-cases (leb n s.shared.next)) [
    | inl past ↦ rw past (λ change.
        let none_left : n ≤ s.shared.next = ground (arith, past) in
        let counted : s.shared.next + 1 ≤ n + threads = omega (
          arith,
          h.cursor,
          h.size,
          total-change is_ended change,
          total-change each change,
          is_ended-le ws,
        ) in
        omega (arith, total-change weight change, none_left, counted, room))
    | inr more ↦ rw more (λ change.
        let inside : s.shared.next < n = ground (arith, more) in
        omega (arith, total-change weight change, inside, room))
  ]

  body-Less :
      (threads : ℕ) (s : State) (late : Bool) (w : Body) (ws : List Body) (r : Body × Shared)
      → n + threads < 2 ^ 64
      → Inv n one threads s
      → body_step n one late w s.shared ≡ some r
      → Less s w ws r
  unfolding body_step
  body-Less threads s late testing ws r room h go =
      subst (Less s testing ws) (some_inj.0 go) (test-Less s ws late)
  body-Less threads s late claiming ws r room h go =
      subst (Less s claiming ws) (some_inj.0 go) (claim-Less threads s ws room h)
  body-Less threads s late (decoding i) ws r room h go =
      subst (Less s (decoding i) ws) (some_inj.0 go)
        (λ change. omega (arith, total-change weight change, after_task-weight (one i)))
  body-Less threads s late (stopping e) ws r room h go =
      subst (Less s (stopping e) ws) (some_inj.0 go)
        (λ change. omega (arith, total-change weight change))
  body-Less threads s late (storing e) ws r room h go =
      subst (Less s (storing e) ws) (some_inj.0 go)
        (λ change. omega (arith, total-change weight change))
  body-Less threads s late ended ws r room h go = cc
  body-Less threads s late dead ws r room h go = cc

  -- A thread that is not over can move.
  find_busy :
      (sh : Shared) (ws : List Body)
      → ((w : Body) × (r : Body × Shared) × (ws' : List Body) × (body_step n one false w sh
            ≡ some r)
          × Change w r.0 ws ws')
        ⊎ (total is_busy ws ≡ 0)
  unfolding body_step
  find_busy sh [] = inr refl
  find_busy sh (testing ∷ ws) = inl (testing, _, _, refl, at [] ws refl refl)
  find_busy sh (claiming ∷ ws) = inl (claiming, _, _, refl, at [] ws refl refl)
  find_busy sh (decoding i ∷ ws) = inl (decoding i, _, _, refl, at [] ws refl refl)
  find_busy sh (stopping e ∷ ws) = inl (stopping e, _, _, refl, at [] ws refl refl)
  find_busy sh (storing e ∷ ws) = inl (storing e, _, _, refl, at [] ws refl refl)
  find_busy sh (ended ∷ ws) = elim (find_busy sh ws) [
    | inl (w, r, ws', go, at pre post e f) ↦
        inl (w, r, ended ∷ ws', go, at (ended ∷ pre) post (ap (◌∷◌ ended) e) (ap (◌∷◌ ended) f))
    | inr over ↦ inr (omega (arith, over))
  ]
  find_busy sh (dead ∷ ws) = elim (find_busy sh ws) [
    | inl (w, r, ws', go, at pre post e f) ↦
        inl (w, r, dead ∷ ws', go, at (dead ∷ pre) post (ap (◌∷◌ dead) e) (ap (◌∷◌ dead) f))
    | inr over ↦ inr (omega (arith, over))
  ]

-- `m` steps, one after the other.
pub data Run (n : ℕ) (one : ℕ → Outcome) : ℕ → State → State → Type 0 where
  done : {s : State} → Run n one 0 s s
  onward : {m : ℕ} {s t u : State} → Step n one s t → Run n one m t u → Run n one (suc m) s u

module _ (n : ℕ) (one : ℕ → Outcome) (threads : ℕ) (room : n + threads < 2 ^ 64) where
  Step-less :
      (s t : State) → Step n one s t → Reach n one threads s → measure n one t < measure n one s
  Step-less s t (by_body late w w' ws sh go change) reached =
      body-Less n one threads s late w ws (w', sh) room (Reach-Inv n one threads room s reached) go
        change

  Run-less :
      (m : ℕ) (s t : State)
      → Run n one m s t
      → Reach n one threads s
      → m + measure n one t ≤ measure n one s
  Run-less m s t done reached = omega arith
  Run-less (suc m) s u (onward {t = t} first rest) reached =
      omega (arith, Step-less s t first reached, Run-less m t u rest (step reached first))

  end_within :
      (fuel : ℕ) (s : State)
      → measure n one s ≤ fuel
      → Reach n one threads s
      → (m : ℕ) × (t : State) × Run n one m s t × (total is_busy t.bodies ≡ 0)
  end_within zero s near reached = elim (find_busy n one s.shared s.bodies) [
    | inr over ↦ (0, s, done, over)
    | inl (w, (w', sh), ws, go, change) ↦
        absurd (omega (arith, Step-less s _ (by_body false w w' ws sh go change) reached))
  ]
  end_within (suc fuel) s near reached = elim (find_busy n one s.shared s.bodies) [
    | inr over ↦ (0, s, done, over)
    | inl (w, (w', sh), ws, go, change) ↦
        let first = by_body false w w' ws sh go change in
        let t : State = record { shared = sh; bodies = ws } in
        let (m, u, rest, over) =
          end_within fuel t (omega (arith, Step-less s t first reached)) (step reached first) in
        (suc m, u, onward first rest, over)
  ]

  -- From every state that is reached, some steps lead to where every thread of `decode` is over, and
  -- no run from it has more than 5 steps for each thread and 4 for each task; the threads and the
  -- tasks are taken to be fewer than 2 ^ 64 together.
  pub decode-ends :
      (s : State)
      → Reach n one threads s
      → ((m : ℕ) × (t : State) × Run n one m s t × (total is_busy t.bodies ≡ 0))
        × ((m : ℕ) (t : State) → Run n one m s t → m ≤ 5 * threads + 4 * n)
  decode-ends s reached = (
    end_within (measure n one s) s (omega arith) reached,
    λ m t run.
        let h = Reach-Inv n one threads room s reached in
        omega (arith, Run-less m s t run reached, weight-le s.bodies, h.size),
  )
