-- ===== src/Write/Queue/Serial/Moves.antt =====
-- src/write.rs: each step of `worker` and `master` keeps the invariant, so a write that succeeds made
-- the serial writer's file.
use Prim.Native.String.{String}
use native.Mathlib.Nat.{suc-mul}
use mathlib.Core.Path.{subst}
use mathlib.Core.Option.{some_inj}
use parquet_interop.Prelude.Crew.{Each, Each-change}
use parquet_interop.Prelude.{
  ℕ, zero, suc, ◌+◌, ◌*◌, ◌/◌, ◌%◌, ◌<◌, ◌≡◌, refl, sym, ap, ◌∙◌, Option, none, some, List, [], ◌∷◌,
  ◌++◌, map, arith, length, inl, inr, Result, ok, err, ◌==◌, Bool-cases, Option-cases, append-nil,
  replicate,
}
use parquet_interop.Write.Queue.{Q, Claim, lookup, take_chunk}
use parquet_interop.Write.Queue.Threads.{
  Job, State, Worker, Master, Event, opened, chunk, claiming, parked, encoding, failing, alarming,
  calling, gone, opening, looking, waiting, appending, closing, releasing, stopping, warning, ended,
  Signal, silent, one_master, all_master, one_work, all_work, everyone, after_claim, after_encode,
  worker_step, after_look, master_step, rouse_worker, rouse_master, Woken, Step, by_worker,
  by_master, Spurious, worker_wakes, master_wakes, start, Reach, here, next, stray,
}
use parquet_interop.Write.Queue.Claims.{
  quotient, remainder, IsTask, ClaimCase, left, slept, refused, got, claim_lem,
}
use parquet_interop.Write.Queue.Serial.{
  serial_groups, serial_at, encode_column, serial_open, serial_append, serial_close, WorkerOk,
  ChunkOk, MasterOk, EachChunk-remove, EachChunk-lookup, QueueOk, Inv,
}

module _ {ℓ κ} {W : Type ℓ} {C : Type κ} (job : Job W C) (whole : length job.columns ≡ job.nc) where
  -- What a worker's step does to the queue and to the worker.
  abbrev Effect : Q W C → (Worker W × Q W C) × Signal → Type (ℓ ⊔ κ)
  Effect q r = QueueOk job r.0.1 × (r.0.1.head ≡ q.head) × WorkerOk job r.0.0

  claim-Effect :
      (q : Q W C) (r : Claim W × Q W C)
      → ClaimCase job q r
      → QueueOk job q
      → Effect q ((after_claim r.0, r.1), silent)
  unfolding after_claim
  claim-Effect q r (left why e) h = rw e (h, refl, tt)
  claim-Effect q r (slept fine more full e) h = rw e (h, refl, tt)
  claim-Effect q r (refused message e) h = rw e (h, refl, tt)
  claim-Effect q r (got g c w wr fine more room task writers e) h = rw e (
    record { writers = writers; bounded = omega arith; ahead = omega arith; chunks = h.chunks },
    refl,
    task,
  )

  encode-Effect :
      (q : Q W C) (i g c : ℕ) (w : W) (r : Result C)
      → job.encode g c w ≡ r
      → QueueOk job q
      → IsTask job i g c w
      → Effect q (after_encode i r q)
  unfolding after_encode
  encode-Effect q i g c w (ok x) e h task = (
    record {
      writers = h.writers;
      bounded = h.bounded;
      ahead = h.ahead;
      chunks = ((g, c, w, task, e), EachChunk-remove job i q.done h.chunks);
    },
    refl,
    tt,
  )
  encode-Effect q i g c w (err message) e h task = (h, refl, tt)

  answers : Option String → Result (List W)
  answers trouble = elim trouble [ none ↦ ok job.columns | some e ↦ err e ]

  worker-Effect :
      (trouble : Option String) (w : Worker W) (q : Q W C) {r : (Worker W × Q W C) × Signal}
      → worker_step job trouble w q ≡ some r
      → QueueOk job q
      → WorkerOk job w
      → Effect q r
  unfolding worker_step
  worker-Effect none claiming q e h task =
      subst (Effect q) (some_inj.0 e)
        (claim-Effect q _ (claim_lem job whole q (ok job.columns) (inl refl) h.writers) h)
  worker-Effect (some m) claiming q e h task =
      subst (Effect q) (some_inj.0 e)
        (claim-Effect q _ (claim_lem job whole q (err m) (inr (m, refl)) h.writers) h)
  worker-Effect trouble parked q e h task = cc
  worker-Effect none (encoding i g c w) q e h task =
      subst (Effect q) (some_inj.0 e) (encode-Effect q i g c w _ refl h task)
  worker-Effect (some m) (encoding i g c w) q e h task =
      subst (Effect q) (some_inj.0 e) (h, refl, tt)
  worker-Effect trouble (failing m) q e h task = subst (Effect q) (some_inj.0 e) (
    record { writers = h.writers; bounded = h.bounded; ahead = h.ahead; chunks = h.chunks },
    refl,
    tt,
  )
  worker-Effect trouble alarming q e h task = subst (Effect q) (some_inj.0 e) (h, refl, tt)
  worker-Effect trouble calling q e h task = subst (Effect q) (some_inj.0 e) (h, refl, tt)
  worker-Effect trouble gone q e h task = cc

  -- What the master's step leaves behind.
  abbrev Placed : List (Event C) → ((Master C × Q W C) × Signal) × List (Event C) → Type (ℓ ⊔ κ)
  Placed out (r, es) = QueueOk job r.0.1 × MasterOk job r.0.0 r.0.1.head (out ++ es)

  abbrev PlacedIf :
      List (Event C) → Option (((Master C × Q W C) × Signal) × List (Event C)) → Type (ℓ ⊔ κ)
  PlacedIf out none = Unit
  PlacedIf out (some r) = Placed out r

  looking_effect :
      (g c : ℕ) (q : Q W C) (out : List (Event C))
      → QueueOk job q
      → MasterOk job (looking g c) q.head out
      → Placed out (after_look g c (take_chunk (g * job.nc + c) q), [])
  unfolding after_look take_chunk
  looking_effect g c q out h (head, group, column, file) =
      elim (Option-cases (lookup (g * job.nc + c) q.done)) [
        | inl missing ↦ rw (take_chunk, missing) (missed q.err)
        | inr (x, found) ↦
            rw (take_chunk, found, append-nil out)
              (
                record {
                  writers = h.writers;
                  bounded = h.bounded;
                  ahead = omega (arith, h.ahead);
                  chunks = EachChunk-remove job _ q.done h.chunks;
                },
                (
                  omega arith,
                  group,
                  column,
                  file,
                  encoded x (EachChunk-lookup job _ q.done x found h.chunks),
                ),
              )
      ]
    where
      missed : (failure : Option String) → Placed out (after_look g c ((none, failure), q), [])
      missed none = (h, (head, group, column, rw (append-nil out) file))
      missed (some e) = (h, tt)

      encoded : (x : C) → ChunkOk job (g * job.nc + c) x → encode_column job g c ≡ ok x
      encoded x (g', c', w, (same, column', writer), done) =
          let gs : g ≡ g' =
            sym (quotient g job.nc c column)
            ∙ ap (λ i. i / job.nc) same
            ∙ quotient g' job.nc c' column' in
          let cs : c ≡ c' =
            sym (remainder g job.nc c column)
            ∙ ap (λ i. i % job.nc) same
            ∙ remainder g' job.nc c' column' in
          let here : encode_column job g' c' ≡ ok x = rw (encode_column, writer) done in
          ap (λ i. encode_column job i c) gs ∙ ap (encode_column job g') cs ∙ here

  master_effect :
      (trouble : Option String) (m : Master C) (q : Q W C) (out : List (Event C))
      → 0 < job.nc
      → QueueOk job q
      → MasterOk job m q.head out
      → PlacedIf out (master_step job trouble m q)
  unfolding master_step
  master_effect trouble (opening g) q out columns h (head, le, file) =
      elim (Bool-cases (g == job.nrg)) [
        | inl last ↦
            let same : g ≡ job.nrg = ground (arith, last) in
            rw last (
              h,
              (
                head ∙ ap (λ n. n * job.nc) same,
                rw (append-nil out) (sym (ap (serial_groups job) same) ∙ file),
              ),
            )
        | inr more ↦ rw more (begun (ground (arith, more, le)) trouble)
      ]
    where
      begun :
          g < job.nrg
          → (trouble : Option String)
          → PlacedIf out (elim trouble [
            | none ↦ some (((looking g 0, q), silent), opened ∷ [])
            | some e ↦ some (((stopping e, q), silent), [])
          ])
      begun group none = (h, (head ∙ omega arith, group, columns, serial_open job g out file))
      begun group (some e) = (h, tt)
  master_effect trouble (looking g c) q out columns h place = looking_effect g c q out h place
  master_effect trouble (waiting g c) q out columns h place = tt
  master_effect none (appending g c x) q out columns h (head, group, column, file, done) =
      elim (Bool-cases (suc c == job.nc)) [
        | inl last ↦
            let whole_row : suc c ≡ job.nc = ground (arith, last) in
            rw last (
              h,
              (
                omega (arith, head, suc-mul g job.nc, whole_row),
                group,
                subst (λ n. serial_at job g n ≡ ok (out ++ (chunk x ∷ []))) whole_row
                    (serial_append job g c x out done file),
              ),
            )
        | inr more ↦
            rw more (
              h,
              (head, group, ground (arith, more, column), serial_append job g c x out done file),
            )
      ]
  master_effect (some e) (appending g c x) q out columns h place = (h, tt)
  master_effect none (closing g) q out columns h (head, group, file) =
      (h, (head, omega arith, serial_close job g out file))
  master_effect (some e) (closing g) q out columns h place = (h, tt)
  master_effect trouble releasing q out columns h (head, file) =
      (h, (head, rw (append-nil out) file))
  master_effect trouble (stopping e) q out columns h place =
      (record { writers = h.writers; bounded = h.bounded; ahead = h.ahead; chunks = h.chunks }, tt)
  master_effect trouble (warning e) q out columns h place = (h, tt)
  master_effect trouble (ended r) q out columns h place = tt

  roused :
      (m : Master C) (head : ℕ) (out : List (Event C))
      → MasterOk job m head out
      → MasterOk job (rouse_master m) head out
  roused (opening g) head out h = h
  roused (looking g c) head out h = h
  roused (waiting g c) head out h = h
  roused (appending g c x) head out h = h
  roused (closing g) head out h = h
  roused releasing head out h = h
  roused (stopping e) head out h = h
  roused (warning e) head out h = h
  roused (ended r) head out h = h

  rouse_one : (w : Worker W) → WorkerOk job w → WorkerOk job (rouse_worker w)
  rouse_one claiming h = h
  rouse_one parked h = h
  rouse_one (encoding i g c w) h = h
  rouse_one (failing e) h = h
  rouse_one alarming h = h
  rouse_one calling h = h
  rouse_one gone h = h

  rouse_all :
      (ws : List (Worker W)) → Each (WorkerOk job) ws → Each (WorkerOk job) (map rouse_worker ws)
  rouse_all [] h = h
  rouse_all (w ∷ ws) (first, rest) = (rouse_one w first, rouse_all ws rest)

  -- A worker's step touches the queue and one worker, and the signal only wakes.
  Woken-tasks :
      (sig : Signal) (ws ws' : List (Worker W)) (m m' : Master C)
      → Woken sig ws m ws' m'
      → Each (WorkerOk job) ws
      → Each (WorkerOk job) ws'
  Woken-tasks silent ws ws' m m' (same, _) h = subst (Each (WorkerOk job)) (sym same) h
  Woken-tasks one_master ws ws' m m' (same, _) h = subst (Each (WorkerOk job)) (sym same) h
  Woken-tasks all_master ws ws' m m' (same, _) h = subst (Each (WorkerOk job)) (sym same) h
  Woken-tasks one_work ws ws' m m' (inl change, _) h = (Each-change (WorkerOk job) change h).1 tt
  Woken-tasks one_work ws ws' m m' (inr (same, _), _) h = subst (Each (WorkerOk job)) (sym same) h
  Woken-tasks all_work ws ws' m m' (roused, _) h =
      subst (Each (WorkerOk job)) (sym roused) (rouse_all _ h)
  Woken-tasks everyone ws ws' m m' (roused, _) h =
      subst (Each (WorkerOk job)) (sym roused) (rouse_all _ h)

  Woken-placed :
      (sig : Signal) (ws ws' : List (Worker W)) (m m' : Master C) (head : ℕ) (out : List (Event C))
      → Woken sig ws m ws' m'
      → MasterOk job m head out
      → MasterOk job m' head out
  Woken-placed silent ws ws' m m' head out (_, same) h = rw same h
  Woken-placed one_master ws ws' m m' head out (_, same) h = rw same (roused m head out h)
  Woken-placed all_master ws ws' m m' head out (_, same) h = rw same (roused m head out h)
  Woken-placed one_work ws ws' m m' head out (_, same) h = rw same h
  Woken-placed all_work ws ws' m m' head out (_, same) h = rw same h
  Woken-placed everyone ws ws' m m' head out (_, same) h = rw same (roused m head out h)

  pub Step-Inv : {s t : State W C} → 0 < job.nc → Step job s t → Inv job s → Inv job t
  Step-Inv {s} {t} columns (by_worker trouble w w' sig ws moved change woken same) h =
      let found = Each-change (WorkerOk job) change h.tasks in
      let effect = worker-Effect trouble w s.queue moved h.queue_ok found.0 in
      record {
        queue_ok = effect.0;
        tasks = Woken-tasks sig ws t.workers s.master t.master woken (found.1 effect.2);
        placed =
            rw (same, effect.1)
              (Woken-placed sig ws t.workers s.master t.master _ _ woken h.placed);
      }
  Step-Inv {s} {t} columns (by_master trouble m sig es moved woken written) h =
      let effect =
        subst (PlacedIf s.out) moved
          (master_effect trouble s.master s.queue s.out columns h.queue_ok h.placed) in
      record {
        queue_ok = effect.0;
        tasks = Woken-tasks sig s.workers t.workers m t.master woken h.tasks;
        placed = rw written (Woken-placed sig s.workers t.workers m t.master _ _ woken effect.1);
      }

  pub Spurious-Inv : {s t : State W C} → Spurious s t → Inv job s → Inv job t
  Spurious-Inv {s} {t} (worker_wakes change queue master out) h = record {
    queue_ok = subst (QueueOk job) (sym queue) h.queue_ok;
    tasks = (Each-change (WorkerOk job) change h.tasks).1 tt;
    placed = rw (master, queue, out) h.placed;
  }
  Spurious-Inv {s} {t} (master_wakes g c before after queue workers out) h = record {
    queue_ok = subst (QueueOk job) (sym queue) h.queue_ok;
    tasks = subst (Each (WorkerOk job)) (sym workers) h.tasks;
    placed =
        rw (after, queue, out) (subst (λ m. MasterOk job m s.queue.head s.out) before h.placed);
  }

  start-Inv : (n : ℕ) → 0 < job.nc → Inv job (start n)
  unfolding serial_groups
  start-Inv n columns = record {
    queue_ok = record {
      writers = record { g = 0; c = 0; place = omega arith; column = columns; kept = refl };
      bounded = omega arith;
      ahead = omega arith;
      chunks = tt;
    };
    tasks = all_claiming n;
    placed = (omega arith, omega arith, refl);
  }
    where
      all_claiming : (n : ℕ) → Each (WorkerOk job) (replicate n claiming)
      all_claiming zero = tt
      all_claiming (suc n) = (tt, all_claiming n)

  pub Reach-Inv : (n : ℕ) {s : State W C} → 0 < job.nc → Reach job n s → Inv job s
  Reach-Inv n columns here = start-Inv n columns
  Reach-Inv n columns (next r step) = Step-Inv columns step (Reach-Inv n columns r)
  Reach-Inv n columns (stray r wake) = Spurious-Inv wake (Reach-Inv n columns r)

  -- In every interleaving of the workers and the master, a write that the master ends with success
  -- made the file that a serial writer makes: all row groups in order, each with the chunks of its
  -- columns in order.
  pub queue-serial :
      (n : ℕ) (s : State W C)
      → 0 < job.nc
      → Reach job n s
      → s.master ≡ ended (ok tt)
      → serial_groups job job.nrg ≡ ok s.out
  queue-serial n s columns r h =
      (subst (λ m. MasterOk job m s.queue.head s.out) h (Reach-Inv n columns r).placed).1
