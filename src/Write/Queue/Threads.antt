-- ===== src/Write/Queue/Threads.antt =====
-- src/write.rs, `worker` and `master` as threads over the queue: one step is one hold of the lock,
-- or one piece of work outside of it. The waits on the two condition variables are states that only
-- a notification ends; one without a notification, which the standard library allows, is a step of
-- its own kind.
use Prim.Native.String.{String}
use parquet_interop.Prelude.{
  ℕ, suc, ◌+◌, ◌*◌, ◌≡◌, ◌⊎◌, Option, none, some, List, [], ◌∷◌, ◌++◌, map, ◌==◌, if◌then◌else◌,
  Result, ok, err, replicate,
}
use parquet_interop.Write.Queue.{
  Q, new_queue, Claim, leaves, waits, no_writers, lost, claimed, claim, put_chunk, note_failure,
  take_chunk,
}
pub use parquet_interop.Prelude.Crew.{Change, at, total}

-- Where a worker is: before its lock section, asleep on `work`, at a task outside of the lock, in
-- `fail` before the lock or before each of the two notifications, or back from the function.
pub data Worker {ℓ} (W : Type ℓ) : Type ℓ where
  claiming parked : Worker W
  encoding : ℕ → ℕ → ℕ → W → Worker W
  failing : String → Worker W
  alarming calling gone : Worker W

-- Where the master is: before `next_row_group`, before its lock section for chunk `c`, asleep on
-- `master`, before the append, before `rgw.close`, before the last notification, in `fail` before
-- the lock or before the notifications, or back with its answer.
pub data Master {κ} (C : Type κ) : Type κ where
  opening : ℕ → Master C
  looking waiting : ℕ → ℕ → Master C
  appending : ℕ → ℕ → C → Master C
  closing : ℕ → Master C
  releasing : Master C
  stopping warning : String → Master C
  ended : Result (Unit {0}) → Master C

-- What goes to the file, in order.
pub data Event {κ} (C : Type κ) : Type κ where
  opened closed : Event C
  chunk : C → Event C

-- `notify_one` and `notify_all` on the two condition variables.
pub data Signal : Type 0 where
  silent one_master all_master one_work all_work everyone : Signal

-- The job: `columns` are the writers that `get_column_writers` makes for a row group, and `encode`
-- is the work on a task.
pub record Job {ℓ κ} (W : Type ℓ) (C : Type κ) : Type (ℓ ⊔ κ) where
  pub nc : ℕ
  pub nrg : ℕ
  pub window : ℕ
  pub columns : List W
  pub encode : ℕ → ℕ → W → Result C

pub record State {ℓ κ} (W : Type ℓ) (C : Type κ) : Type (ℓ ⊔ κ) where
  pub queue : Q W C
  pub workers : List (Worker W)
  pub master : Master C
  pub out : List (Event C)

module _ {ℓ} {W : Type ℓ} where
  -- What follows the lock section of a claim.
  unfoldable pub after_claim : Claim W → Worker W
  after_claim leaves = gone
  after_claim waits = parked
  after_claim (no_writers e) = failing e
  after_claim lost = failing "pq_write: writer lost"
  after_claim (claimed i g c w) = encoding i g c w

module _ {ℓ κ} {W : Type ℓ} {C : Type κ} where
  -- What follows the work on a task.
  unfoldable pub after_encode : ℕ → Result C → Q W C → (Worker W × Q W C) × Signal
  after_encode i (ok x) q = ((claiming, put_chunk i x q), one_master)
  after_encode i (err e) q = ((failing e, q), silent)

  -- What follows the lock section for chunk `c`.
  unfoldable pub after_look :
      ℕ → ℕ → (Option C × Option String) × Q W C → (Master C × Q W C) × Signal
  after_look g c ((some x, e), q) = ((appending g c x, q), one_work)
  after_look g c ((none, some e), q) = ((ended (err e), q), silent)
  after_look g c ((none, none), q) = ((waiting g c, q), silent)

module _ {ℓ κ} {W : Type ℓ} {C : Type κ} (job : Job W C) where
  -- A worker's step: none where it is asleep or back. `trouble` is what the crates make of it: a
  -- failure of `get_column_writers`, or a panic outside of the lock, which `body` turns into a
  -- failure.
  unfoldable pub worker_step :
      Option String → Worker W → Q W C → Option ((Worker W × Q W C) × Signal)
  unfolding after_claim after_encode claim
  worker_step trouble claiming q =
      let writers : Result (List W) = elim trouble [ none ↦ ok job.columns | some e ↦ err e ] in
      let (found, q') = claim job.nc (job.nrg * job.nc) job.window writers q in
      some ((after_claim found, q'), silent)
  worker_step trouble parked q = none
  worker_step none (encoding i g c w) q = some (after_encode i (job.encode g c w) q)
  worker_step (some e) (encoding i g c w) q = some ((failing "pq_write: worker panic", q), silent)
  worker_step trouble (failing e) q = some ((alarming, note_failure e q), silent)
  worker_step trouble alarming q = some ((calling, q), all_work)
  worker_step trouble calling q = some ((gone, q), all_master)
  worker_step trouble gone q = none

  -- The master's step: where it goes, the queue, the signal, and what the file gets. `trouble` is
  -- an error of the file writer.
  unfoldable pub master_step :
      Option String → Master C → Q W C → Option (((Master C × Q W C) × Signal) × List (Event C))
  unfolding after_look take_chunk
  master_step trouble (opening g) q =
      let stop : String → Option (((Master C × Q W C) × Signal) × List (Event C)) =
        λ e. some (((stopping e, q), silent), []) in
      let start : Option (((Master C × Q W C) × Signal) × List (Event C)) = elim trouble [
        | none ↦ some (((looking g 0, q), silent), opened ∷ [])
        | some e ↦ stop e
      ] in
      if g == job.nrg then some (((releasing, q), silent), []) else start
  master_step trouble (looking g c) q = some (after_look g c (take_chunk (g * job.nc + c) q), [])
  master_step trouble (waiting g c) q = none
  master_step none (appending g c x) q =
      let next : Master C = if suc c == job.nc then closing g else looking g (suc c) in
      some (((next, q), silent), chunk x ∷ [])
  master_step (some e) (appending g c x) q = some (((stopping e, q), silent), [])
  master_step none (closing g) q = some (((opening (suc g), q), silent), closed ∷ [])
  master_step (some e) (closing g) q = some (((stopping e, q), silent), [])
  master_step trouble releasing q = some (((ended (ok tt), q), all_work), [])
  master_step trouble (stopping e) q = some (((warning e, note_failure e q), silent), [])
  master_step trouble (warning e) q = some (((ended (err e), q), everyone), [])
  master_step trouble (ended r) q = none

module _ {ℓ} {W : Type ℓ} where
  abbrev pub is_parked : Worker W → ℕ
  is_parked parked = 1
  is_parked w = 0

  abbrev pub rouse_worker : Worker W → Worker W
  rouse_worker parked = claiming
  rouse_worker w = w

abbrev pub rouse_master {κ} : {C : Type κ} → Master C → Master C
rouse_master (waiting g c) = looking g c
rouse_master m = m

module _ {ℓ κ} {W : Type ℓ} {C : Type κ} where
  -- What a signal does to the threads: `notify_one` wakes one of those asleep, if there is one.
  abbrev pub Woken : Signal → List (Worker W) → Master C → List (Worker W) → Master C → Type (ℓ ⊔ κ)
  Woken silent ws m ws' m' = (ws' ≡ ws) × (m' ≡ m)
  Woken one_master ws m ws' m' = (ws' ≡ ws) × (m' ≡ rouse_master m)
  Woken all_master ws m ws' m' = (ws' ≡ ws) × (m' ≡ rouse_master m)
  Woken one_work ws m ws' m' =
      (Change parked claiming ws ws' ⊎ ((ws' ≡ ws) × (total is_parked ws ≡ 0))) × (m' ≡ m)
  Woken all_work ws m ws' m' = (ws' ≡ map rouse_worker ws) × (m' ≡ m)
  Woken everyone ws m ws' m' = (ws' ≡ map rouse_worker ws) × (m' ≡ rouse_master m)

  pub data Step (job : Job W C) (s t : State W C) : Type (ℓ ⊔ κ) where
    by_worker :
        (trouble : Option String) (w w' : Worker W) (sig : Signal) (ws : List (Worker W))
        → worker_step job trouble w s.queue ≡ some ((w', t.queue), sig)
        → Change w w' s.workers ws
        → Woken sig ws s.master t.workers t.master
        → t.out ≡ s.out
        → Step job s t
    by_master :
        (trouble : Option String) (m : Master C) (sig : Signal) (es : List (Event C))
        → master_step job trouble s.master s.queue ≡ some (((m, t.queue), sig), es)
        → Woken sig s.workers m t.workers t.master
        → t.out ≡ s.out ++ es
        → Step job s t

  -- A wait that ends without a notification.
  pub data Spurious (s t : State W C) : Type (ℓ ⊔ κ) where
    worker_wakes :
        Change parked claiming s.workers t.workers
        → t.queue ≡ s.queue
        → t.master ≡ s.master
        → t.out ≡ s.out
        → Spurious s t
    master_wakes :
        (g c : ℕ)
        → s.master ≡ waiting g c
        → t.master ≡ looking g c
        → t.queue ≡ s.queue
        → t.workers ≡ s.workers
        → t.out ≡ s.out
        → Spurious s t

  -- `n` workers and the master at their starts.
  abbrev pub start : ℕ → State W C
  start n = record {
    queue = new_queue;
    workers = replicate n claiming;
    master = opening 0;
    out = [];
  }

  pub data Reach (job : Job W C) (n : ℕ) : State W C → Type (ℓ ⊔ κ) where
    here : Reach job n (start n)
    next : {s t : State W C} → Reach job n s → Step job s t → Reach job n t
    stray : {s t : State W C} → Reach job n s → Spurious s t → Reach job n t
