-- ===== src/Write/Queue/Live/Steps.antt =====
-- src/write.rs: in every interleaving of `worker` and `master` the wake-ups hold.
use Prim.Native.String.{String}
use native.Mathlib.Nat.{suc-mul}
use mathlib.Core.Path.{subst}
use mathlib.Core.Option.{some_inj}
use parquet_interop.Prelude.{
  ℕ, zero, suc, ◌+◌, ◌*◌, ◌<◌, ◌≡◌, ◌≢◌, refl, ap, ◌∙◌, inl, inr, Option, none, some, List, [], ◌∷◌,
  map, arith, ◌==◌, false, length, replicate, Bool-cases, Option-cases, Result, ok, err,
}
use parquet_interop.Write.Queue.{Q, new_queue, Claim, is_some, lookup, take_chunk}
use parquet_interop.Write.Queue.Threads.{
  Job, State, Worker, Master, Event, claiming, parked, encoding, failing, alarming, calling, gone,
  opening, looking, waiting, appending, closing, releasing, stopping, warning, ended, opened,
  Signal, silent, after_claim, after_encode, worker_step, after_look, master_step, Change, total,
  is_parked, rouse_worker, rouse_master, Woken, Step, by_worker, by_master, Spurious, worker_wakes,
  master_wakes, Reach, here, next, stray,
}
use parquet_interop.Write.Queue.Claims.{ClaimCase, left, slept, refused, got, claim_lem}
use parquet_interop.Write.Queue.Serial.{MasterOk, QueueOk, Inv}
use parquet_interop.Write.Queue.Serial.Moves.{Reach-Inv}
use parquet_interop.Write.Queue.Live.{
  one, is_alarming, is_calling, is_gone, flag, encodes, is_ended, is_warning, Live,
}
use parquet_interop.Write.Queue.Live.Workers.{
  leave_lem, park_lem, fail_lem, claim-Live, finish_lem, announce_lem, alarm_lem, call_lem,
  wake_lem,
}
use parquet_interop.Write.Queue.Live.Masters.{
  quiet_lem, take_lem, give_up_lem, wait_lem, release_lem, stop_lem,
}

module _ {ℓ κ} {W : Type ℓ} {C : Type κ} (job : Job W C) (n : ℕ) where
  -- A step of a worker from `w`, with its signal, keeps `Live`.
  abbrev Keeps : Worker W → Q W C → (Worker W × Q W C) × Signal → Type (ℓ ⊔ κ)
  Keeps w q r =
      (before ws ws' : List (Worker W)) (m m' : Master C)
      → Change w r.0.0 before ws
      → Woken r.1 ws m ws' m'
      → Live job n q before m
      → Live job n r.0.1 ws' m'

  flag_zero : (o : Option String) → is_some o ≡ false → flag o ≡ 0
  flag_zero none h = refl
  flag_zero (some e) h = cc

  moved :
      (q : Q W C) (ws ws' : List (Worker W)) (m m' : Master C)
      → (ws' ≡ ws) × (m' ≡ m)
      → Live job n q ws m
      → Live job n q ws' m'
  moved q ws ws' m m' (same, still) h = rw (same, still) h

  claim-Keeps :
      (q : Q W C) (r : Claim W × Q W C)
      → ClaimCase job q r
      → Keeps claiming q ((after_claim r.0, r.1), silent)
  unfolding after_claim
  claim-Keeps q r (left why e) = rw e (λ before ws ws' m m' change woken h.
      moved q ws ws' m m' woken (leave_lem job n q before ws m change why h))
  claim-Keeps q r (slept fine more full e) = rw e (λ before ws ws' m m' change woken h.
      moved q ws ws' m m' woken
        (park_lem job n q before ws m change (flag_zero q.err fine) more full h))
  claim-Keeps q r (refused message e) = rw e (λ before ws ws' m m' change woken h.
      moved q ws ws' m m' woken (fail_lem job n q claiming message before ws m change refl refl h))
  claim-Keeps q r (got g c w wr fine more room task writers e) =
      rw e (λ before ws ws' m m' change woken h.
        moved _ ws ws' m m' woken (claim-Live job n q wr g c w before ws m change h))

  encode-Keeps :
      (q : Q W C) (i g c : ℕ) (w : W) (r : Result C)
      → Keeps (encoding i g c w) q (after_encode i r q)
  unfolding after_encode
  encode-Keeps q i g c w (ok x) before ws ws' m m' change woken h =
      moved _ ws ws' (rouse_master m) m' woken (finish_lem job n q i g c w x before ws m change h)
  encode-Keeps q i g c w (err e) before ws ws' m m' change woken h =
      moved q ws ws' m m' woken
        (fail_lem job n q (encoding i g c w) e before ws m change refl refl h)

  worker-Keeps :
      (whole : length job.columns ≡ job.nc) (trouble : Option String) (w : Worker W) (q : Q W C)
      {r : (Worker W × Q W C) × Signal}
      → worker_step job trouble w q ≡ some r
      → QueueOk job q
      → Keeps w q r
  unfolding worker_step
  worker-Keeps whole none claiming q e h =
      subst (Keeps claiming q) (some_inj.0 e)
        (claim-Keeps q _ (claim_lem job whole q (ok job.columns) (inl refl) h.writers))
  worker-Keeps whole (some m) claiming q e h =
      subst (Keeps claiming q) (some_inj.0 e)
        (claim-Keeps q _ (claim_lem job whole q (err m) (inr (m, refl)) h.writers))
  worker-Keeps whole trouble parked q e h = cc
  worker-Keeps whole none (encoding i g c w) q e h =
      subst (Keeps (encoding i g c w) q) (some_inj.0 e) (encode-Keeps q i g c w (job.encode g c w))
  worker-Keeps whole (some x) (encoding i g c w) q e h =
      subst (Keeps (encoding i g c w) q) (some_inj.0 e) (λ before ws ws' m m' change woken live.
        moved q ws ws' m m' woken
          (fail_lem job n q (encoding i g c w) _ before ws m change refl refl live))
  worker-Keeps whole trouble (failing x) q e h =
      subst (Keeps (failing x) q) (some_inj.0 e) (λ before ws ws' m m' change woken live.
        moved _ ws ws' m m' woken (announce_lem job n q x before ws m change live))
  worker-Keeps whole trouble alarming q e h =
      subst (Keeps alarming q) (some_inj.0 e) (λ before ws ws' m m' change woken live.
        moved q (map rouse_worker ws) ws' m m' woken (alarm_lem job n q before ws m change live))
  worker-Keeps whole trouble calling q e h =
      subst (Keeps calling q) (some_inj.0 e) (λ before ws ws' m m' change woken live.
        moved q ws ws' (rouse_master m) m' woken (call_lem job n q before ws m change live))
  worker-Keeps whole trouble gone q e h = cc

  -- A step of the master from `m`, with its signal, keeps `Live`.
  abbrev MasterKeeps : Master C → Q W C → (Master C × Q W C) × Signal → Type (ℓ ⊔ κ)
  MasterKeeps m q r =
      (ws ws' : List (Worker W)) (m' : Master C)
      → Woken r.1 ws r.0.0 ws' m'
      → Live job n q ws m
      → Live job n r.0.1 ws' m'

  abbrev KeepsIf :
      Master C → Q W C → Option (((Master C × Q W C) × Signal) × List (Event C)) → Type (ℓ ⊔ κ)
  KeepsIf m q none = Unit
  KeepsIf m q (some (r, es)) = MasterKeeps m q r

  quietly :
      (q : Q W C) (m m' : Master C)
      → is_ended m + is_warning m + is_ended m' + is_warning m' ≡ 0
      → ((g c : ℕ) → m' ≢ waiting g c)
      → MasterKeeps m q ((m', q), silent)
  quietly q m m' quiet awake ws ws' m'' woken h =
      moved q ws ws' m' m'' woken (quiet_lem job n q ws m m' quiet awake h)

  looking_keeps :
      (g c : ℕ) (q : Q W C)
      → q.head ≡ g * job.nc + c
      → MasterKeeps (looking g c) q (after_look g c (take_chunk (g * job.nc + c) q))
  unfolding after_look take_chunk
  looking_keeps g c q place = elim (Option-cases (lookup (g * job.nc + c) q.done)) [
    | inl missing ↦ rw (take_chunk, missing) (missed missing q.err refl)
    | inr (x, found) ↦
        rw (take_chunk, found)
          (λ ws ws' m' (woken, same) h. rw same (take_lem job n q ws ws' g c x place found woken h))
  ]
    where
      missed :
          lookup (g * job.nc + c) q.done ≡ none
          → (o : Option String) → q.err ≡ o
          → MasterKeeps (looking g c) q (after_look g c ((none, o), q))
      missed missing none e ws ws' m' woken h =
          moved q ws ws' _ m' woken (wait_lem job n q ws g c missing (ap flag e) h)
      missed missing (some message) e ws ws' m' woken h =
          moved q ws ws' _ m' woken (give_up_lem job n q ws g c message (ap flag e) h)

  master_keeps :
      (trouble : Option String) (m : Master C) (q : Q W C) (out : List (Event C))
      → MasterOk job m q.head out
      → KeepsIf m q (master_step job trouble m q)
  unfolding master_step
  master_keeps trouble (opening g) q out place = elim (Bool-cases (g == job.nrg)) [
    | inl last ↦ rw last (quietly q (opening g) releasing refl (λ g c e. cc))
    | inr more ↦ rw more (begun trouble)
  ]
    where
      begun :
          (trouble : Option String)
          → KeepsIf (opening g) q (elim trouble [
            | none ↦ some (((looking g 0, q), silent), opened ∷ [])
            | some e ↦ some (((stopping e, q), silent), [])
          ])
      begun none = quietly q (opening g) (looking g 0) refl (λ g c e. cc)
      begun (some e) = quietly q (opening g) (stopping e) refl (λ g c e. cc)
  master_keeps trouble (looking g c) q out place = looking_keeps g c q place.0
  master_keeps trouble (waiting g c) q out place = tt
  master_keeps none (appending g c x) q out place = elim (Bool-cases (suc c == job.nc)) [
    | inl last ↦ rw last (quietly q (appending g c x) (closing g) refl (λ g c e. cc))
    | inr more ↦ rw more (quietly q (appending g c x) (looking g (suc c)) refl (λ g c e. cc))
  ]
  master_keeps (some e) (appending g c x) q out place =
      quietly q (appending g c x) (stopping e) refl (λ g c e. cc)
  master_keeps none (closing g) q out place =
      quietly q (closing g) (opening (suc g)) refl (λ g c e. cc)
  master_keeps (some e) (closing g) q out place =
      quietly q (closing g) (stopping e) refl (λ g c e. cc)
  master_keeps trouble releasing q out place = λ ws ws' m' woken h.
      moved q (map rouse_worker ws) ws' (ended (ok tt)) m' woken
        (release_lem job n q ws (ok tt) releasing (λ fine. omega (arith, place.0, h.consumed)) h)
  master_keeps trouble (stopping e) q out place =
      λ ws ws' m' woken h. moved _ ws ws' (warning e) m' woken (stop_lem job n q ws e h)
  master_keeps trouble (warning e) q out place = λ ws ws' m' woken h.
      moved q (map rouse_worker ws) ws' (ended (err e)) m' woken (
        release_lem job n q ws (err e) (warning e)
          (λ fine. absurd (omega (arith, h.announced (omega arith)))) h)
  master_keeps trouble (ended r) q out place = tt

  pub Step-Live :
      {s t : State W C}
      → length job.columns ≡ job.nc
      → Step job s t
      → Inv job s
      → Live job n s.queue s.workers s.master
      → Live job n t.queue t.workers t.master
  Step-Live {s} {t} whole (by_worker trouble w w' sig ws step change woken same) inv h =
      worker-Keeps whole trouble w s.queue step inv.queue_ok s.workers ws t.workers s.master
        t.master change woken h
  Step-Live {s} {t} whole (by_master trouble m sig es step woken written) inv h =
      subst (KeepsIf s.master s.queue) step (master_keeps trouble s.master s.queue s.out inv.placed)
        s.workers t.workers t.master woken h

  Spurious-Live :
      {s t : State W C}
      → Spurious s t
      → Live job n s.queue s.workers s.master
      → Live job n t.queue t.workers t.master
  Spurious-Live {s} {t} (worker_wakes change queue master out) h =
      rw (queue, master) (wake_lem job n s.queue s.workers t.workers s.master change h)
  Spurious-Live {s} {t} (master_wakes g c before after queue workers out) h =
      rw (queue, workers, after)
        (quiet_lem job n s.queue s.workers (waiting g c) (looking g c) refl (λ g c e. cc)
          (subst (Live job n s.queue s.workers) before h))

  start-Live : Live job n new_queue (replicate n claiming) (opening 0)
  start-Live = record {
    crew = all one n 1 refl ∙ omega arith;
    consumed = omega arith;
    handed = λ j lt. absurd (omega (arith, all (encodes j) n 0 refl));
    held = λ j le lt. absurd (omega arith);
    sleeping = λ asleep quiet. absurd (omega (arith, all is_parked n 0 refl));
    expecting = λ g c e. cc;
    returned = λ back fine. absurd (omega (arith, all is_gone n 0 refl));
    announced = λ loud. absurd (omega (arith, all is_alarming n 0 refl, all is_calling n 0 refl));
  }
    where
      all : (f : Worker W → ℕ) (k v : ℕ) → f claiming ≡ v → total f (replicate k claiming) ≡ k * v
      all f zero v h = omega arith
      all f (suc k) v h = omega (arith, h, all f k v h, suc-mul k v)

  pub Reach-Live :
      {s : State W C}
      → 0 < job.nc
      → length job.columns ≡ job.nc
      → Reach job n s
      → Live job n s.queue s.workers s.master
  Reach-Live columns whole here = start-Live
  Reach-Live columns whole (next r step) =
      Step-Live whole step (Reach-Inv job whole n columns r) (Reach-Live columns whole r)
  Reach-Live columns whole (stray r wake) = Spurious-Live wake (Reach-Live columns whole r)
