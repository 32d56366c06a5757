-- ===== src/Write/Queue/Live/Masters.antt =====
-- src/write.rs, `master`: its steps keep the wake-ups.
use Prim.Native.String.{String}
use parquet_interop.Prelude.Crew.{total-change}
use parquet_interop.Prelude.{
  ℕ, ◌+◌, ◌*◌, ◌≤◌, ◌≡◌, ◌≢◌, refl, ap, ◌⊎◌, inl, inr, none, some, List, map, arith, ◌==◌, false,
  Result, err,
}
use parquet_interop.Write.Queue.{Q, lookup, note_failure, remove}
use parquet_interop.Write.Queue.Threads.{
  Job, Worker, Master, claiming, parked, appending, waiting, looking, stopping, warning, ended,
  Change, total, is_parked, rouse_worker,
}
use parquet_interop.Write.Queue.Live.{
  is_failing, is_alarming, is_calling, encodes, one, flag, is_ended, is_warning, stock,
  stock-remove, stock-remove-le, rouse-parked, rouse-other, Live,
}
use parquet_interop.Write.Queue.Live.Workers.{counts, note_flag}

module _ {ℓ κ} {W : Type ℓ} {C : Type κ} (job : Job W C) (n : ℕ) where
  -- A step that leaves the queue and the workers alone, and neither sleeps nor ends.
  pub quiet_lem :
      (q : Q W C) (ws : List (Worker W)) (m m' : Master C)
      → is_ended m + is_warning m + is_ended m' + is_warning m' ≡ 0
      → ((g c : ℕ) → m' ≢ waiting g c)
      → Live job n q ws m
      → Live job n q ws m'
  quiet_lem q ws m m' quiet awake h = record {
    crew = h.crew;
    consumed = h.consumed;
    handed = h.handed;
    held = h.held;
    sleeping =
        λ asleep hush. let was = h.sleeping asleep (omega arith) in (omega (arith, was.0), was.1);
    expecting = λ g c e. absurd (awake g c e);
    returned = λ back. h.returned (omega arith);
    announced = λ loud. h.announced (omega arith);
  }

  pub take_lem :
      (q : Q W C) (ws ws' : List (Worker W)) (g c : ℕ) (x : C)
      → q.head ≡ g * job.nc + c
      → lookup (g * job.nc + c) q.done ≡ some x
      → Change parked claiming ws ws' ⊎ ((ws' ≡ ws) × (total is_parked ws ≡ 0))
      → Live job n q ws (looking g c)
      → Live job n
          (record q { head = g * job.nc + c + 1; done = remove (g * job.nc + c) q.done })
          ws'
          (appending g c x)
  take_lem q ws ws' g c x place found (inl change) h =
      let i = g * job.nc + c in
      let there : stock i q.done ≡ 1 = ap flag found in
      record {
        crew = omega (arith, counts change, h.crew);
        consumed = omega (arith, h.handed i (omega (arith, there)));
        handed = λ j lt.
            h.handed j (omega (arith, total-change (encodes j) change, stock-remove-le i j q.done));
        held = λ j le lt.
            let other : (j == i) ≡ false = ground arith in
            omega (
              arith,
              counts change,
              stock-remove i j q.done other,
              total-change (encodes j) change,
              h.held j (omega arith) lt,
            );
        sleeping = λ asleep quiet.
            let was = h.sleeping (omega (arith, counts change)) (omega (arith, counts change)) in
            (was.0, λ more. omega (arith, counts change, was.1 more));
        expecting = λ g c e. cc;
        returned = λ back. h.returned (omega (arith, counts change));
        announced = λ loud. h.announced (omega (arith, counts change));
      }
  take_lem q ws ws' g c x place found (inr (same, none_parked)) h =
      let i = g * job.nc + c in
      let there : stock i q.done ≡ 1 = ap flag found in
      rw same record {
        crew = h.crew;
        consumed = omega (arith, h.handed i (omega (arith, there)));
        handed = λ j lt. h.handed j (omega (arith, stock-remove-le i j q.done));
        held = λ j le lt.
            let other : (j == i) ≡ false = ground arith in
            omega (arith, stock-remove i j q.done other, h.held j (omega arith) lt);
        sleeping = λ asleep quiet. absurd (omega (arith, none_parked));
        expecting = λ g c e. cc;
        returned = λ back. h.returned (omega arith);
        announced = λ loud. h.announced (omega arith);
      }

  pub give_up_lem :
      (q : Q W C) (ws : List (Worker W)) (g c : ℕ) (e : String)
      → flag q.err ≡ 1
      → Live job n q ws (looking g c)
      → Live job n q ws (ended (err e))
  give_up_lem q ws g c e failed h = record {
    crew = h.crew;
    consumed = h.consumed;
    handed = h.handed;
    held = h.held;
    sleeping = λ asleep quiet. absurd (omega (arith, (h.sleeping asleep (omega arith)).0));
    expecting = λ g c same. cc;
    returned = λ back fine. absurd (omega arith);
    announced = λ loud. omega arith;
  }

  pub wait_lem :
      (q : Q W C) (ws : List (Worker W)) (g c : ℕ)
      → lookup (g * job.nc + c) q.done ≡ none
      → flag q.err ≡ 0
      → Live job n q ws (looking g c)
      → Live job n q ws (waiting g c)
  wait_lem q ws g c missing fine h = record {
    crew = h.crew;
    consumed = h.consumed;
    handed = h.handed;
    held = h.held;
    sleeping = h.sleeping;
    expecting = λ g' c' same.
        let gs : g ≡ g' = ap group_of same in
        let cs : c ≡ c' = ap column_of same in (rw (← gs, ← cs) (ap flag missing), λ quiet. fine);
    returned = h.returned;
    announced = h.announced;
  }
    where
      group_of : Master C → ℕ
      group_of (waiting g c) = g
      group_of m = 0

      column_of : Master C → ℕ
      column_of (waiting g c) = c
      column_of m = 0

  pub release_lem :
      (q : Q W C) (ws : List (Worker W)) (r : Result (Unit {0})) (m : Master C)
      → (flag q.err ≡ 0 → job.nrg * job.nc ≤ q.next)
      → Live job n q ws m
      → Live job n q (map rouse_worker ws) (ended r)
  release_lem q ws r m done h = record {
    crew = omega (arith, rouse-other one refl ws, h.crew);
    consumed = h.consumed;
    handed = λ j lt. h.handed j (omega (arith, rouse-other (encodes j) refl ws));
    held = λ j le lt.
        omega
          (arith, rouse-other (encodes j) refl ws, rouse-other is_failing refl ws, h.held j le lt);
    sleeping = λ asleep quiet. absurd (omega (arith, rouse-parked ws));
    expecting = λ g c same. cc;
    returned = λ back. done;
    announced = λ loud.
        h.announced
          (omega (arith, rouse-other is_alarming refl ws, rouse-other is_calling refl ws));
  }

  pub stop_lem :
      (q : Q W C) (ws : List (Worker W)) (e : String)
      → Live job n q ws (stopping e)
      → Live job n (note_failure e q) ws (warning e)
  stop_lem q ws e h = record {
    crew = h.crew;
    consumed = h.consumed;
    handed = h.handed;
    held = λ j le lt. omega (arith, note_flag job n e q);
    sleeping = λ asleep quiet. absurd (omega arith);
    expecting = λ g c same. cc;
    returned = λ back fine. absurd (omega (arith, note_flag job n e q));
    announced = λ loud. omega (arith, note_flag job n e q);
  }
