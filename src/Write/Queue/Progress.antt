-- ===== src/Write/Queue/Progress.antt =====
-- src/write.rs, `worker` and `master`: they never wait for each other.
use native.Mathlib.Nat.{suc-mul, mul-le-mul_right}
use parquet_interop.Prelude.{
  ℕ, ◌+◌, ◌*◌, ◌≤◌, ◌<◌, ◌≡◌, refl, ap, ◌∙◌, ◌⊎◌, inl, inr, none, some, List, [], ◌∷◌, ◌++◌, map,
  arith, ◌==◌, length, Bool-cases, Result,
}
use parquet_interop.Write.Queue.{Q}
use parquet_interop.Write.Queue.Threads.{
  Job, State, Worker, Master, Event, claiming, parked, encoding, failing, alarming, calling, gone,
  opening, looking, waiting, appending, closing, releasing, stopping, warning, ended, Signal,
  silent, one_master, all_master, one_work, all_work, everyone, worker_step, master_step, Change,
  at, total, is_parked, rouse_worker, rouse_master, Woken, Step, by_worker, by_master, Reach,
}
use parquet_interop.Write.Queue.Serial.{MasterOk}
use parquet_interop.Write.Queue.Serial.Moves.{Reach-Inv}
use parquet_interop.Write.Queue.Live.{
  one, is_active, is_failing, is_alarming, is_calling, is_gone, encodes, flag, stock, Live,
}
use parquet_interop.Write.Queue.Live.Steps.{Reach-Live}

module _ {ℓ} {W : Type ℓ} where
  -- The workers are asleep or back.
  abbrev pub Idle : List (Worker W) → Type 0
  Idle ws =
      (total is_active ws + total is_alarming ws + total is_calling ws ≡ 0)
      × (total is_parked ws + total is_gone ws ≡ total one ws)

  abbrev pub is_idle : Worker W → ℕ
  is_idle w = is_parked w + is_gone w

  abbrev Busy : List (Worker W) → Type ℓ
  Busy ws =
      (w : Worker W) × (pre : List (Worker W)) × (post : List (Worker W)) × (ws ≡ pre ++ (w ∷ post))
      × (is_idle w ≡ 0)

  at_work_or_not : (ws : List (Worker W)) → Busy ws ⊎ Idle ws
  at_work_or_not [] = inr (refl, refl)
  at_work_or_not (w ∷ ws) = elim (at_work_or_not ws) [
    | inl (w', pre, post, e, busy) ↦ inl (w', w ∷ pre, post, ap (◌∷◌ w) e, busy)
    | inr idle ↦ first w idle
  ]
    where
      first : (w : Worker W) → Idle ws → Busy (w ∷ ws) ⊎ Idle (w ∷ ws)
      first claiming idle = inl (claiming, [], ws, refl, refl)
      first parked idle = inr (omega (arith, idle), omega (arith, idle))
      first (encoding i g c x) idle = inl (encoding i g c x, [], ws, refl, refl)
      first (failing e) idle = inl (failing e, [], ws, refl, refl)
      first alarming idle = inl (alarming, [], ws, refl, refl)
      first calling idle = inl (calling, [], ws, refl, refl)
      first gone idle = inr (omega (arith, idle), omega (arith, idle))

  encodes-le : (j : ℕ) (ws : List (Worker W)) → total (encodes j) ws ≤ total is_active ws
  encodes-le j [] = omega arith
  encodes-le j (w ∷ ws) = ground (arith, encodes-le j ws)

  failing-le : (ws : List (Worker W)) → total is_failing ws ≤ total is_active ws
  failing-le [] = omega arith
  failing-le (w ∷ ws) = ground (arith, failing-le ws)

  -- `notify_one` can choose.
  abbrev Chosen : List (Worker W) → Type ℓ
  Chosen ws =
      (ws' : List (Worker W)) × (Change parked claiming ws ws'
        ⊎ ((ws' ≡ ws) × (total is_parked ws ≡ 0)))

  keep_on : (w : Worker W) (ws : List (Worker W)) → is_parked w ≡ 0 → Chosen ws → Chosen (w ∷ ws)
  keep_on w ws h (ws', inl (at pre post e f)) =
      (w ∷ ws', inl (at (w ∷ pre) post (ap (◌∷◌ w) e) (ap (◌∷◌ w) f)))
  keep_on w ws h (ws', inr (same, quiet)) = (w ∷ ws', inr (ap (◌∷◌ w) same, omega (arith, quiet)))

  one_parked : (ws : List (Worker W)) → Chosen ws
  one_parked [] = ([], inr (refl, refl))
  one_parked (w ∷ ws) = choose w (one_parked ws)
    where
      choose : (w : Worker W) → Chosen ws → Chosen (w ∷ ws)
      choose parked rest = (claiming ∷ ws, inl (at [] ws refl refl))
      choose claiming rest = keep_on claiming ws refl rest
      choose (encoding i g c x) rest = keep_on (encoding i g c x) ws refl rest
      choose (failing e) rest = keep_on (failing e) ws refl rest
      choose alarming rest = keep_on alarming ws refl rest
      choose calling rest = keep_on calling ws refl rest
      choose gone rest = keep_on gone ws refl rest

module _ {ℓ κ} {W : Type ℓ} {C : Type κ} where
  signalled :
      (sig : Signal) (ws : List (Worker W)) (m : Master C)
      → (ws' : List (Worker W)) × (m' : Master C) × Woken sig ws m ws' m'
  signalled silent ws m = (ws, m, (refl, refl))
  signalled one_master ws m = (ws, rouse_master m, (refl, refl))
  signalled all_master ws m = (ws, rouse_master m, (refl, refl))
  signalled one_work ws m = let chosen = one_parked ws in (chosen.0, m, (chosen.1, refl))
  signalled all_work ws m = (map rouse_worker ws, m, (refl, refl))
  signalled everyone ws m = (map rouse_worker ws, rouse_master m, (refl, refl))

  -- All threads are back.
  abbrev pub IsOver : State W C → Type κ
  IsOver s =
      (r : Result (Unit {0})) × (s.master ≡ ended r)
      × (total is_gone s.workers ≡ total one s.workers)

module _ {ℓ κ} {W : Type ℓ} {C : Type κ} (job : Job W C) where
  worker_can :
      (w : Worker W) (q : Q W C)
      → is_idle w ≡ 0
      → (r : (Worker W × Q W C) × Signal) × (worker_step job none w q ≡ some r)
  unfolding worker_step
  worker_can claiming q h = (_, refl)
  worker_can parked q h = absurd (omega arith)
  worker_can (encoding i g c w) q h = (_, refl)
  worker_can (failing e) q h = (_, refl)
  worker_can alarming q h = (_, refl)
  worker_can calling q h = (_, refl)
  worker_can gone q h = absurd (omega arith)

  abbrev CanStep : State W C → Type (ℓ ⊔ κ)
  CanStep s = (t : State W C) × Step job s t

  at_work_steps : (s : State W C) → Busy s.workers → CanStep s
  at_work_steps s (w, pre, post, e, busy) =
      let (r, moved) = worker_can w s.queue busy in
      let ws = pre ++ (r.0.0 ∷ post) in
      let (ws', m', woken) = signalled r.1 ws s.master in
      (
        record { queue = r.0.1; workers = ws'; master = m'; out = s.out },
        by_worker none w r.0.0 r.1 ws moved (at pre post e refl) woken refl,
      )

  abbrev is_idle_master : Master C → ℕ
  is_idle_master (waiting g c) = 1
  is_idle_master (ended r) = 1
  is_idle_master m = 0

  opening_can :
      (g : ℕ) (q : Q W C)
      → (r : ((Master C × Q W C) × Signal) × List (Event C)) × (master_step job none (opening g) q
          ≡ some r)
  unfolding master_step
  opening_can g q = elim (Bool-cases (g == job.nrg)) [
    | inl last ↦ rw last (_, refl)
    | inr more ↦ rw more (_, refl)
  ]

  master_can :
      (m : Master C) (q : Q W C)
      → is_idle_master m ≡ 0
      → (r : ((Master C × Q W C) × Signal) × List (Event C)) × (master_step job none m q ≡ some r)
  unfolding master_step
  master_can (opening g) q h = opening_can g q
  master_can (looking g c) q h = (_, refl)
  master_can (waiting g c) q h = absurd (omega arith)
  master_can (appending g c x) q h = (_, refl)
  master_can (closing g) q h = (_, refl)
  master_can releasing q h = (_, refl)
  master_can (stopping e) q h = (_, refl)
  master_can (warning e) q h = (_, refl)
  master_can (ended r) q h = absurd (omega arith)

  master_steps : (s : State W C) → is_idle_master s.master ≡ 0 → CanStep s
  master_steps s h =
      let ((r, es), moved) = master_can s.master s.queue h in
      let (ws', m', woken) = signalled r.1 s.workers r.0.0 in
      (
        record { queue = r.0.1; workers = ws'; master = m'; out = s.out ++ es },
        by_master none r.0.0 r.1 es moved woken refl,
      )

  module _ (n : ℕ) (crew : 0 < n) (window : 0 < job.window) where
    -- A master asleep on a chunk that is not there and workers all asleep or back contradict `Live`.
    stuck :
        (q : Q W C) (ws : List (Worker W)) (g c : ℕ) (out : List (Event C))
        → Idle ws
        → MasterOk job (waiting g c) q.head out
        → Live job n q ws (waiting g c)
        → ⊥
    stuck q ws g c out idle (place, group, column, file) h =
        let (missing, calm) = h.expecting g c refl in
        let fine : flag q.err ≡ 0 = calm (omega (arith, idle)) in
        let more : q.head < job.nrg * job.nc =
          omega (arith, mul-le-mul_right job.nc group, suc-mul g job.nc) in
        let here : stock q.head q.done ≡ 0 = ap (λ j. stock j q.done) place ∙ missing in
        let level : q.next ≤ q.head = elim (le_or_lt q.next q.head) [
          | inl le ↦ le
          | inr lt ↦ absurd (
              omega (
                arith,
                idle,
                here,
                fine,
                encodes-le q.head ws,
                failing-le ws,
                h.held q.head (omega arith) lt,
              ))
        ] in
        elim (le_or_lt (total is_parked ws) 0) [
          | inl none_parked ↦ omega (arith, h.returned (omega (arith, idle, h.crew)) fine)
          | inr asleep ↦
              omega (arith, idle, (h.sleeping asleep (omega (arith, idle))).1 (omega arith))
        ]
      where
        le_or_lt : (a b : ℕ) → (a ≤ b) ⊎ (b < a)
        le_or_lt a b = ground arith

    over :
        (q : Q W C) (ws : List (Worker W)) (r : Result (Unit {0}))
        → Idle ws
        → Live job n q ws (ended r)
        → total is_gone ws ≡ total one ws
    over q ws r idle h = elim (zero_or_pos (total is_parked ws)) [
      | inl none_parked ↦ omega (arith, idle)
      | inr asleep ↦ absurd (omega (arith, (h.sleeping asleep (omega (arith, idle))).0))
    ]
      where
        zero_or_pos : (k : ℕ) → (k ≡ 0) ⊎ (0 < k)
        zero_or_pos k = ground arith

    at_rest_steps :
        (q : Q W C) (ws : List (Worker W)) (m : Master C) (out : List (Event C))
        → Idle ws
        → MasterOk job m q.head out
        → Live job n q ws m
        → (is_idle_master m ≡ 0)
          ⊎ ((r : Result (Unit {0})) × (m ≡ ended r) × (total is_gone ws ≡ total one ws))
    at_rest_steps q ws (waiting g c) out idle place h = absurd (stuck q ws g c out idle place h)
    at_rest_steps q ws (ended r) out idle place h = inr (r, refl, over q ws r idle h)
    at_rest_steps q ws (opening g) out idle place h = inl refl
    at_rest_steps q ws (looking g c) out idle place h = inl refl
    at_rest_steps q ws (appending g c x) out idle place h = inl refl
    at_rest_steps q ws (closing g) out idle place h = inl refl
    at_rest_steps q ws releasing out idle place h = inl refl
    at_rest_steps q ws (stopping e) out idle place h = inl refl
    at_rest_steps q ws (warning e) out idle place h = inl refl

    -- The write never hangs: in every reachable state all threads are back, or one of them takes a
    -- step without a stray wake-up, whatever failed before. There is a column, a worker and a place
    -- in the window, and `get_column_writers` makes a writer for each column.
    pub queue-progress :
        (s : State W C)
        → 0 < job.nc
        → length job.columns ≡ job.nc
        → Reach job n s
        → IsOver s ⊎ ((t : State W C) × Step job s t)
    queue-progress s columns whole r =
        let inv = Reach-Inv job whole n columns r in
        let live = Reach-Live job n columns whole r in
        elim (at_work_or_not s.workers) [
          | inl busy ↦ inr (at_work_steps s busy)
          | inr idle ↦ elim (at_rest_steps s.queue s.workers s.master s.out idle inv.placed live) [
            | inl awake ↦ inr (master_steps s awake)
            | inr finished ↦ inl finished
          ]
        ]
