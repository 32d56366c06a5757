-- ===== src/Write/Queue/Live/Workers.antt =====
-- src/write.rs, `worker`: its steps keep the wake-ups.
use Prim.Native.String.{String}
use parquet_interop.Prelude.Crew.{total-change}
use parquet_interop.Prelude.{
  ℕ, zero, suc, ◌+◌, ◌*◌, ◌≤◌, ◌<◌, ◌≡◌, refl, ◌⊎◌, inl, inr, Option, none, some, List, map, arith,
  true,
}
use parquet_interop.Write.Queue.{Q, is_some, note_failure, put_chunk}
use parquet_interop.Write.Queue.Threads.{
  Job, Worker, Master, claiming, parked, encoding, failing, alarming, calling, gone, Change, total,
  is_parked, rouse_worker, rouse_master,
}
use parquet_interop.Write.Queue.Live.{
  is_active, is_failing, is_alarming, is_calling, is_gone, encodes, one, flag, is_ended,
  rouse-ended, rouse-warning, rouse-awake, stock-insert, rouse-parked, rouse-other, Live,
}

module _ {ℓ} {W : Type ℓ} {w w' : Worker W} {ws ws' : List (Worker W)}
    (change : Change w w' ws ws') where
  abbrev pub Counted : (Worker W → ℕ) → Type 0
  Counted f = total f ws' + f w ≡ total f ws + f w'

  pub counts :
      Counted one
      × Counted is_parked
      × Counted is_active
      × Counted is_failing
      × Counted is_alarming
      × Counted is_calling
      × Counted is_gone
  counts = (
    total-change one change,
    total-change is_parked change,
    total-change is_active change,
    total-change is_failing change,
    total-change is_alarming change,
    total-change is_calling change,
    total-change is_gone change,
  )

module _ {ℓ κ} {W : Type ℓ} {C : Type κ} (job : Job W C) (n : ℕ) where
  pub leave_lem :
      (q : Q W C) (ws ws' : List (Worker W)) (m : Master C)
      → Change claiming gone ws ws'
      → (is_some q.err ≡ true) ⊎ (job.nrg * job.nc ≤ q.next)
      → Live job n q ws m
      → Live job n q ws' m
  leave_lem q ws ws' m change why h =
      let failed_or_last : flag q.err ≡ 0 → job.nrg * job.nc ≤ q.next = why_lem q.err why in
      record {
        crew = omega (arith, counts change, h.crew);
        consumed = h.consumed;
        handed = λ j lt. h.handed j (omega (arith, total-change (encodes j) change));
        held = λ j le lt.
            omega (arith, counts change, total-change (encodes j) change, h.held j le lt);
        sleeping = λ asleep quiet.
            let was = h.sleeping (omega (arith, counts change)) (omega (arith, counts change)) in
            (was.0, λ more. absurd (omega (arith, was.0, failed_or_last (omega (arith, was.0)))));
        expecting = λ g c e.
            let was = h.expecting g c e in (was.0, λ quiet. was.1 (omega (arith, counts change)));
        returned = λ back fine. failed_or_last fine;
        announced = λ loud. h.announced (omega (arith, counts change));
      }
    where
      why_lem :
          (o : Option String)
          → (is_some o ≡ true) ⊎ (job.nrg * job.nc ≤ q.next)
          → flag o ≡ 0
          → job.nrg * job.nc ≤ q.next
      why_lem none (inl failed) fine = cc
      why_lem (some e) (inl failed) fine = absurd (omega arith)
      why_lem o (inr last) fine = last

  pub zero_or_pos : (k : ℕ) → (k ≡ 0) ⊎ (0 < k)
  zero_or_pos zero = inl refl
  zero_or_pos (suc k) = inr (omega arith)

  pub park_lem :
      (q : Q W C) (ws ws' : List (Worker W)) (m : Master C)
      → Change claiming parked ws ws'
      → flag q.err ≡ 0
      → q.next < job.nrg * job.nc
      → q.head + job.window ≤ q.next
      → Live job n q ws m
      → Live job n q ws' m
  park_lem q ws ws' m change fine more full h = record {
    crew = omega (arith, counts change, h.crew);
    consumed = h.consumed;
    handed = λ j lt. h.handed j (omega (arith, total-change (encodes j) change));
    held = λ j le lt. omega (arith, counts change, total-change (encodes j) change, h.held j le lt);
    sleeping = λ asleep quiet. elim (zero_or_pos (is_ended m)) [
      | inl on ↦ (omega arith, λ _. omega arith)
      | inr over ↦ absurd (omega (arith, h.returned (omega arith) fine))
    ];
    expecting = λ g c e.
        let was = h.expecting g c e in (was.0, λ quiet. was.1 (omega (arith, counts change)));
    returned = λ back. h.returned (omega (arith, counts change));
    announced = λ loud. h.announced (omega (arith, counts change));
  }

  -- A worker that was at work goes to `fail`.
  pub fail_lem :
      (q : Q W C) (w : Worker W) (e : String) (ws ws' : List (Worker W)) (m : Master C)
      → Change w (failing e) ws ws'
      → is_active w ≡ 1
      → is_parked w + is_failing w + is_alarming w + is_calling w + is_gone w ≡ 0
      → Live job n q ws m
      → Live job n q ws' m
  fail_lem q w e ws ws' m change busy quiet_w h = record {
    crew = omega (arith, counts change, h.crew);
    consumed = h.consumed;
    handed = λ j lt. h.handed j (omega (arith, total-change (encodes j) change));
    held = λ j le lt. omega (arith, counts change);
    sleeping = λ asleep quiet.
        let was = h.sleeping (omega (arith, counts change)) (omega (arith, counts change)) in
        (was.0, λ more. omega (arith, counts change, was.1 more));
    expecting = λ g c e.
        let was = h.expecting g c e in (was.0, λ quiet. was.1 (omega (arith, counts change)));
    returned = λ back. h.returned (omega (arith, counts change));
    announced = λ loud. h.announced (omega (arith, counts change));
  }

  pub claim-Live :
      (q : Q W C) (wr : List (ℕ × List (Option W))) (g c : ℕ) (w : W) (ws ws' : List (Worker W))
      (m : Master C)
      → Change claiming (encoding q.next g c w) ws ws'
      → Live job n q ws m
      → Live job n (record q { next = q.next + 1; wr = wr }) ws' m
  claim-Live q wr g c w ws ws' m change h = record {
    crew = omega (arith, counts change, h.crew);
    consumed = omega (arith, h.consumed);
    handed = λ j lt. ground (arith, total-change (encodes j) change, h.handed j);
    held = λ j le lt. ground (arith, counts change, total-change (encodes j) change, h.held j le);
    sleeping = λ asleep quiet.
        let was = h.sleeping (omega (arith, counts change)) (omega (arith, counts change)) in
        (was.0, λ more. omega (arith, counts change, was.1 (omega arith)));
    expecting = λ g c e.
        let was = h.expecting g c e in (was.0, λ quiet. was.1 (omega (arith, counts change)));
    returned = λ back fine. omega (arith, h.returned (omega (arith, counts change)) fine);
    announced = λ loud. h.announced (omega (arith, counts change));
  }

  pub finish_lem :
      (q : Q W C) (i g c : ℕ) (w : W) (x : C) (ws ws' : List (Worker W)) (m : Master C)
      → Change (encoding i g c w) claiming ws ws'
      → Live job n q ws m
      → Live job n (put_chunk i x q) ws' (rouse_master m)
  finish_lem q i g c w x ws ws' m change h = record {
    crew = omega (arith, counts change, h.crew);
    consumed = h.consumed;
    handed = λ j lt.
        ground (arith, stock-insert i j x q.done, total-change (encodes j) change, h.handed j);
    held = λ j le lt. ground (
      arith,
      counts change,
      stock-insert i j x q.done,
      total-change (encodes j) change,
      h.held j le lt,
    );
    sleeping = λ asleep quiet.
        let was =
          h.sleeping (omega (arith, counts change))
            (omega (arith, counts change, rouse-warning m)) in
        (omega (arith, was.0, rouse-ended m), λ more. omega (arith, counts change, was.1 more));
    expecting = λ g c e. absurd (rouse-awake m g c e);
    returned = λ back. h.returned (omega (arith, counts change, rouse-ended m));
    announced = λ loud. h.announced (omega (arith, counts change, rouse-warning m));
  }

  pub note_flag : (e : String) (q : Q W C) → flag (note_failure e q).err ≡ 1
  note_flag e q = noted q.err
    where
      noted : (o : Option String) → flag (elim o [ none ↦ some e | some first ↦ some first ]) ≡ 1
      noted none = refl
      noted (some first) = refl

  pub announce_lem :
      (q : Q W C) (e : String) (ws ws' : List (Worker W)) (m : Master C)
      → Change (failing e) alarming ws ws'
      → Live job n q ws m
      → Live job n (note_failure e q) ws' m
  announce_lem q e ws ws' m change h = record {
    crew = omega (arith, counts change, h.crew);
    consumed = h.consumed;
    handed = λ j lt. h.handed j (omega (arith, total-change (encodes j) change));
    held = λ j le lt. omega (arith, note_flag e q);
    sleeping = λ asleep quiet. absurd (omega (arith, counts change));
    expecting =
        λ g c waits. ((h.expecting g c waits).0, λ quiet. absurd (omega (arith, counts change)));
    returned = λ back fine. absurd (omega (arith, note_flag e q));
    announced = λ loud. omega (arith, note_flag e q);
  }

  pub alarm_lem :
      (q : Q W C) (ws ws' : List (Worker W)) (m : Master C)
      → Change alarming calling ws ws'
      → Live job n q ws m
      → Live job n q (map rouse_worker ws') m
  alarm_lem q ws ws' m change h =
      let failed : 0 < flag q.err = h.announced (omega (arith, counts change)) in
      let hushed = rouse-other is_alarming refl ws' in
      let called = rouse-other is_calling refl ws' in
      record {
        crew = omega (arith, counts change, rouse-other one refl ws', h.crew);
        consumed = h.consumed;
        handed = λ j lt.
            h.handed j
              (omega (arith, rouse-other (encodes j) refl ws', total-change (encodes j) change));
        held = λ j le lt. omega (arith, failed);
        sleeping = λ asleep quiet. absurd (omega (arith, rouse-parked ws'));
        expecting = λ g c waits.
            ((h.expecting g c waits).0, λ quiet. absurd (omega (arith, counts change, called)));
        returned = λ back fine. absurd (omega (arith, failed));
        announced = λ loud. failed;
      }

  pub call_lem :
      (q : Q W C) (ws ws' : List (Worker W)) (m : Master C)
      → Change calling gone ws ws'
      → Live job n q ws m
      → Live job n q ws' (rouse_master m)
  call_lem q ws ws' m change h =
      let failed : 0 < flag q.err = h.announced (omega (arith, counts change)) in
      record {
        crew = omega (arith, counts change, h.crew);
        consumed = h.consumed;
        handed = λ j lt. h.handed j (omega (arith, total-change (encodes j) change));
        held = λ j le lt. omega (arith, failed);
        sleeping = λ asleep quiet.
            let was =
              h.sleeping (omega (arith, counts change))
                (omega (arith, counts change, rouse-warning m)) in
            (omega (arith, was.0, rouse-ended m), λ more. omega (arith, counts change, was.1 more));
        expecting = λ g c e. absurd (rouse-awake m g c e);
        returned = λ back fine. absurd (omega (arith, failed));
        announced = λ loud. failed;
      }

  pub wake_lem :
      (q : Q W C) (ws ws' : List (Worker W)) (m : Master C)
      → Change parked claiming ws ws'
      → Live job n q ws m
      → Live job n q ws' m
  wake_lem q ws ws' m change h = record {
    crew = omega (arith, counts change, h.crew);
    consumed = h.consumed;
    handed = λ j lt. h.handed j (omega (arith, total-change (encodes j) change));
    held = λ j le lt. omega (arith, counts change, total-change (encodes j) change, h.held j le lt);
    sleeping = λ asleep quiet.
        let was = h.sleeping (omega (arith, counts change)) (omega (arith, counts change)) in
        (was.0, λ more. omega (arith, counts change, was.1 more));
    expecting = λ g c e.
        let was = h.expecting g c e in (was.0, λ quiet. was.1 (omega (arith, counts change)));
    returned = λ back. h.returned (omega (arith, counts change));
    announced = λ loud. h.announced (omega (arith, counts change));
  }
