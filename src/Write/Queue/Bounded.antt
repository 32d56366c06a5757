-- ===== src/Write/Queue/Bounded.antt =====
-- src/write.rs, `worker` and `master`: every run of the queue ends.
use Prim.Native.String.{String}
use native.Mathlib.Nat.{suc-mul}
use mathlib.Core.Path.{subst}
use mathlib.Core.Option.{some_inj}
use parquet_interop.Prelude.Crew.{total-change}
use parquet_interop.Prelude.{
  ℕ, zero, suc, ◌+◌, ◌-◌, ◌*◌, ◌≤◌, ◌<◌, ◌≡◌, refl, ap, ◌∙◌, inl, inr, Option, none, some, List, [],
  ◌∷◌, map, arith, ◌==◌, length, replicate, Bool-cases, Option-cases, Result, ok, err,
}
use parquet_interop.Write.Queue.{Q, Claim, take_chunk, lookup}
use parquet_interop.Write.Queue.Threads.{
  Job, State, Worker, Master, Event, claiming, parked, encoding, failing, alarming, calling, gone,
  opening, looking, waiting, appending, closing, releasing, stopping, warning, ended, opened,
  Signal, silent, one_master, all_master, one_work, all_work, everyone, after_claim, after_encode,
  after_look, worker_step, master_step, total, rouse_worker, rouse_master, Woken, Step, by_worker,
  by_master, start, Reach, here, next,
}
use parquet_interop.Write.Queue.Claims.{ClaimCase, left, slept, refused, got, claim_lem}
use parquet_interop.Write.Queue.Serial.{MasterOk, QueueOk, Inv}
use parquet_interop.Write.Queue.Serial.Moves.{Reach-Inv}
use parquet_interop.Write.Queue.Live.{one}
use parquet_interop.Write.Queue.Live.Steps.{Reach-Live}
use parquet_interop.Write.Queue.Progress.{IsOver, queue-progress}

module _ {ℓ κ} {W : Type ℓ} {C : Type κ} (job : Job W C) (n : ℕ) where
  -- The steps that a worker can still take, the wake-ups it can cause included: an announcement of
  -- a failure wakes at most `n` workers and the master.
  abbrev pub worker_weight : Worker W → ℕ
  worker_weight claiming = n + 6
  worker_weight parked = n + 5
  worker_weight (encoding i g c w) = n + 8
  worker_weight (failing e) = n + 5
  worker_weight alarming = n + 4
  worker_weight calling = 2
  worker_weight gone = 0

  -- The steps of the master's program from row group `g` on, and from column `c` of it on.
  abbrev groups_left : ℕ → ℕ
  groups_left g = (job.nrg - g) * (4 * job.nc + 8)

  abbrev pub master_weight : Master C → ℕ
  master_weight (opening g) = groups_left g + n + 5
  master_weight (looking g c) = groups_left (suc g) + 4 * (job.nc - c) + n + 10
  master_weight (waiting g c) = groups_left (suc g) + 4 * (job.nc - c) + n + 9
  master_weight (appending g c x) = groups_left (suc g) + 4 * (job.nc - suc c) + n + 11
  master_weight (closing g) = groups_left (suc g) + n + 6
  master_weight releasing = n + 2
  master_weight (stopping e) = n + 4
  master_weight (warning e) = n + 3
  master_weight (ended r) = 0

  abbrev pub measure : State W C → ℕ
  measure s =
      total worker_weight s.workers + master_weight s.master + 3 * (job.nrg * job.nc - s.queue.next)

  rouse-weight :
      (ws : List (Worker W))
      → total worker_weight (map rouse_worker ws) ≤ total worker_weight ws + total one ws
  rouse-weight [] = omega arith
  rouse-weight (w ∷ ws) = ground (arith, rouse-weight ws)

  rouse_master-weight : (m : Master C) → master_weight (rouse_master m) ≤ master_weight m + 1
  rouse_master-weight (opening g) = omega arith
  rouse_master-weight (looking g c) = omega arith
  rouse_master-weight (waiting g c) = omega arith
  rouse_master-weight (appending g c x) = omega arith
  rouse_master-weight (closing g) = omega arith
  rouse_master-weight releasing = omega arith
  rouse_master-weight (stopping e) = omega arith
  rouse_master-weight (warning e) = omega arith
  rouse_master-weight (ended r) = omega arith

  -- What a signal can add.
  abbrev wakes : Signal → ℕ
  wakes silent = 0
  wakes one_master = 1
  wakes all_master = 1
  wakes one_work = 1
  wakes all_work = n
  wakes everyone = n + 1

  Woken-weight :
      (sig : Signal) (ws ws' : List (Worker W)) (m m' : Master C)
      → total one ws ≡ n
      → Woken sig ws m ws' m'
      → total worker_weight ws' + master_weight m'
        ≤ total worker_weight ws + master_weight m + wakes sig
  Woken-weight silent ws ws' m m' crew (same, still) =
      omega (arith, ap (total worker_weight) same, ap master_weight still)
  Woken-weight one_master ws ws' m m' crew (same, still) =
      omega (arith, ap (total worker_weight) same, ap master_weight still, rouse_master-weight m)
  Woken-weight all_master ws ws' m m' crew (same, still) =
      omega (arith, ap (total worker_weight) same, ap master_weight still, rouse_master-weight m)
  Woken-weight one_work ws ws' m m' crew (inl change, still) =
      omega (arith, total-change worker_weight change, ap master_weight still)
  Woken-weight one_work ws ws' m m' crew (inr (same, quiet), still) =
      omega (arith, ap (total worker_weight) same, ap master_weight still)
  Woken-weight all_work ws ws' m m' crew (same, still) =
      omega (arith, ap (total worker_weight) same, ap master_weight still, rouse-weight ws, crew)
  Woken-weight everyone ws ws' m m' crew (same, still) = omega (
    arith,
    ap (total worker_weight) same,
    ap master_weight still,
    rouse_master-weight m,
    rouse-weight ws,
    crew,
  )

  abbrev unclaimed : Q W C → ℕ
  unclaimed q = 3 * (job.nrg * job.nc - q.next)

  -- A step that costs more than its signal can add.
  abbrev Lighter : Worker W → Q W C → (Worker W × Q W C) × Signal → Type 0
  Lighter w q r = worker_weight r.0.0 + unclaimed r.0.1 + wakes r.1 < worker_weight w + unclaimed q

  claim-Lighter :
      (q : Q W C) (r : Claim W × Q W C)
      → ClaimCase job q r
      → Lighter claiming q ((after_claim r.0, r.1), silent)
  unfolding after_claim
  claim-Lighter q r (left why e) = rw e (omega arith)
  claim-Lighter q r (slept fine more full e) = rw e (omega arith)
  claim-Lighter q r (refused message e) = rw e (omega arith)
  claim-Lighter q r (got g c w wr fine more room task writers e) = rw e (omega (arith, more))

  encode-Lighter :
      (q : Q W C) (i g c : ℕ) (w : W) (r : Result C)
      → Lighter (encoding i g c w) q (after_encode i r q)
  unfolding after_encode
  encode-Lighter q i g c w (ok x) = omega arith
  encode-Lighter q i g c w (err e) = omega arith

  worker-Lighter :
      (whole : length job.columns ≡ job.nc) (trouble : Option String) (w : Worker W) (q : Q W C)
      {r : (Worker W × Q W C) × Signal}
      → worker_step job trouble w q ≡ some r
      → QueueOk job q
      → Lighter w q r
  unfolding worker_step
  worker-Lighter whole none claiming q e h =
      subst (Lighter claiming q) (some_inj.0 e)
        (claim-Lighter q _ (claim_lem job whole q (ok job.columns) (inl refl) h.writers))
  worker-Lighter whole (some m) claiming q e h =
      subst (Lighter claiming q) (some_inj.0 e)
        (claim-Lighter q _ (claim_lem job whole q (err m) (inr (m, refl)) h.writers))
  worker-Lighter whole trouble parked q e h = cc
  worker-Lighter whole none (encoding i g c w) q e h =
      subst (Lighter (encoding i g c w) q) (some_inj.0 e)
        (encode-Lighter q i g c w (job.encode g c w))
  worker-Lighter whole (some x) (encoding i g c w) q e h =
      subst (Lighter (encoding i g c w) q) (some_inj.0 e) (omega arith)
  worker-Lighter whole trouble (failing x) q e h =
      subst (Lighter (failing x) q) (some_inj.0 e) (omega arith)
  worker-Lighter whole trouble alarming q e h =
      subst (Lighter alarming q) (some_inj.0 e) (omega arith)
  worker-Lighter whole trouble calling q e h =
      subst (Lighter calling q) (some_inj.0 e) (omega arith)
  worker-Lighter whole trouble gone q e h = cc

  abbrev LighterIf :
      Master C → Q W C → Option (((Master C × Q W C) × Signal) × List (Event C)) → Type 0
  LighterIf m q none = Unit
  LighterIf m q (some (r, es)) =
      master_weight r.0.0 + unclaimed r.0.1 + wakes r.1 < master_weight m + unclaimed q

  group_less : (g : ℕ) → g < job.nrg → groups_left g ≡ groups_left (suc g) + (4 * job.nc + 8)
  group_less g h =
      let less : job.nrg - g ≡ suc (job.nrg - suc g) = omega arith in
      ap (λ k. k * (4 * job.nc + 8)) less ∙ suc-mul (job.nrg - suc g) (4 * job.nc + 8)

  looking_lighter :
      (g c : ℕ) (q : Q W C)
      → c < job.nc
      → LighterIf (looking g c) q (some (after_look g c (take_chunk (g * job.nc + c) q), []))
  unfolding after_look take_chunk
  looking_lighter g c q column = elim (Option-cases (lookup (g * job.nc + c) q.done)) [
    | inl missing ↦ rw (take_chunk, missing) (missed q.err)
    | inr (x, found) ↦ rw (take_chunk, found) (omega (arith, column))
  ]
    where
      missed :
          (o : Option String) → LighterIf (looking g c) q (some (after_look g c ((none, o), q), []))
      missed none = omega arith
      missed (some e) = omega arith

  master_lighter :
      (trouble : Option String) (m : Master C) (q : Q W C) (out : List (Event C))
      → MasterOk job m q.head out
      → LighterIf m q (master_step job trouble m q)
  unfolding master_step
  master_lighter trouble (opening g) q out (head, le, file) = elim (Bool-cases (g == job.nrg)) [
    | inl last ↦ rw last (omega arith)
    | inr more ↦ rw more (begun trouble (ground (arith, more, le)))
  ]
    where
      begun :
          (trouble : Option String)
          → g < job.nrg
          → LighterIf (opening g) q (elim trouble [
            | none ↦ some (((looking g 0, q), silent), opened ∷ [])
            | some e ↦ some (((stopping e, q), silent), [])
          ])
      begun none group = omega (arith, group_less g group)
      begun (some e) group = omega arith
  master_lighter trouble (looking g c) q out (head, group, column, file) =
      looking_lighter g c q column
  master_lighter trouble (waiting g c) q out place = tt
  master_lighter none (appending g c x) q out place = elim (Bool-cases (suc c == job.nc)) [
    | inl last ↦ rw last (omega arith)
    | inr more ↦ rw more (omega arith)
  ]
  master_lighter (some e) (appending g c x) q out place = omega arith
  master_lighter none (closing g) q out place = omega arith
  master_lighter (some e) (closing g) q out place = omega arith
  master_lighter trouble releasing q out place = omega arith
  master_lighter trouble (stopping e) q out place = omega arith
  master_lighter trouble (warning e) q out place = omega arith
  master_lighter trouble (ended r) q out place = tt

  Step-measure :
      {s t : State W C}
      → length job.columns ≡ job.nc
      → Step job s t
      → Inv job s
      → total one s.workers ≡ n
      → measure t < measure s
  Step-measure {s} {t} whole (by_worker trouble w w' sig ws step change woken same) inv crew =
      omega (
        arith,
        worker-Lighter whole trouble w s.queue step inv.queue_ok,
        total-change worker_weight change,
        Woken-weight sig ws t.workers s.master t.master (omega (arith, total-change one change))
            woken,
      )
  Step-measure {s} {t} whole (by_master trouble m sig es step woken written) inv crew = omega (
    arith,
    subst (LighterIf s.master s.queue) step
        (master_lighter trouble s.master s.queue s.out inv.placed),
    Woken-weight sig s.workers t.workers m t.master crew woken,
  )

-- `k` steps, none of them a stray wake-up.
pub data Run {ℓ κ} {W : Type ℓ} {C : Type κ} (job : Job W C)
    : ℕ → State W C → State W C → Type (ℓ ⊔ κ) where
  still : {s : State W C} → Run job 0 s s
  onward : {k : ℕ} {s t u : State W C} → Step job s t → Run job k t u → Run job (suc k) s u

module _ {ℓ κ} {W : Type ℓ} {C : Type κ} (job : Job W C) (n : ℕ) where
  Run-measure :
      {k : ℕ} {s t : State W C}
      → 0 < job.nc
      → length job.columns ≡ job.nc
      → Reach job n s
      → Run job k s t
      → k + measure job n t ≤ measure job n s
  Run-measure columns whole r still = omega arith
  Run-measure columns whole r (onward step rest) = omega (
    arith,
    Step-measure job n whole step (Reach-Inv job whole n columns r)
        (Reach-Live job n columns whole r).crew,
    Run-measure columns whole (next r step) rest,
  )

  -- From their start, no run of the threads without stray wake-ups is longer than a bound in the
  -- workers, the row groups and the columns, whatever fails in it. The job has a column, and as many
  -- column writers as columns.
  pub queue-bounded :
      (k : ℕ) (t : State W C)
      → 0 < job.nc
      → length job.columns ≡ job.nc
      → Run job k (start n) t
      → k ≤ n * (n + 6) + job.nrg * (4 * job.nc + 8) + n + 5 + 3 * (job.nrg * job.nc)
  queue-bounded k t columns whole run =
      let all_groups : (job.nrg - 0) * (4 * job.nc + 8) ≡ job.nrg * (4 * job.nc + 8) =
        ap (λ g. g * (4 * job.nc + 8)) (omega arith) in
      omega (arith, Run-measure columns whole here run, all_start n, all_groups)
    where
      all_start : (i : ℕ) → total (worker_weight job n) (replicate i claiming) ≡ i * (n + 6)
      all_start zero = omega arith
      all_start (suc i) = omega (arith, all_start i, suc-mul i (n + 6))

  finish :
      (fuel : ℕ) (s : State W C)
      → 0 < n
      → 0 < job.window
      → 0 < job.nc
      → length job.columns ≡ job.nc
      → Reach job n s
      → measure job n s < fuel
      → (k : ℕ) × (t : State W C) × Run job k s t × IsOver t
  finish zero s crew window columns whole r enough = absurd (omega arith)
  finish (suc fuel) s crew window columns whole r enough =
      elim (queue-progress job n crew window s columns whole r) [
        | inl over ↦ (0, s, still, over)
        | inr (t, step) ↦
            let lighter =
              Step-measure job n whole step (Reach-Inv job whole n columns r)
                (Reach-Live job n columns whole r).crew in
            let (k, u, rest, over) =
              finish fuel t crew window columns whole (next r step) (omega (arith, lighter)) in
            (suc k, u, onward step rest, over)
      ]

  -- From every reachable state, stray wake-ups and failures before it included, the threads come to
  -- an end.
  pub queue-ends :
      (s : State W C)
      → 0 < n
      → 0 < job.window
      → 0 < job.nc
      → length job.columns ≡ job.nc
      → Reach job n s
      → (k : ℕ) × (t : State W C) × Run job k s t × IsOver t
  queue-ends s crew window columns whole r =
      finish (suc (measure job n s)) s crew window columns whole r (omega arith)
