-- ===== src/Write/Queue/Serial.antt =====
-- src/write.rs: the file as a writer without threads would write it, and the invariant that ties the
-- queue to it.
pub mod Moves
use mathlib.Core.Path.{subst}
use mathlib.Core.Option.{some_inj}
use parquet_interop.Prelude.Crew.{Each}
use parquet_interop.Prelude.{
  ℕ, zero, suc, ◌+◌, ◌*◌, ◌≤◌, ◌<◌, ◌≡◌, refl, sym, ap, ◌∙◌, Option, none, some, List, [], ◌∷◌,
  ◌++◌, map, arith, get_elem?, ◌==◌, if◌then◌else◌, Bool-cases, inl, inr, append_assoc, Result, ok,
  err, ◌>>=◌, bind_ok, ok_inj,
}
use parquet_interop.Write.Queue.{Q, lookup, insert, remove}
use parquet_interop.Write.Queue.Threads.{
  Job, State, Worker, Master, Event, encoding, opening, looking, waiting, appending, closing,
  releasing, stopping, warning, ended, opened, closed, chunk, Change, at, rouse_worker,
}
use parquet_interop.Write.Queue.Claims.{IsTask, WritersOk, quotient, remainder}

module _ {ℓ κ} {W : Type ℓ} {C : Type κ} (job : Job W C) where
  -- One task, done by itself.
  abbrev pub encode_column : ℕ → ℕ → Result C
  encode_column g c = elim (get_elem? job.columns c) [
    | none ↦ err "pq_write: writer lost"
    | some w ↦ job.encode g c w
  ]

  -- The first `c` columns of row group `g`.
  unfoldable pub serial_columns : ℕ → ℕ → Result (List (Event C))
  serial_columns g zero = ok (opened ∷ [])
  serial_columns g (suc c) = do
    columns ← serial_columns g c
    x ← encode_column g c
    ok (columns ++ (chunk x ∷ []))

  -- The first `g` row groups, in order, each with its columns in order.
  unfoldable pub serial_groups : ℕ → Result (List (Event C))
  unfolding serial_columns
  serial_groups zero = ok []
  serial_groups (suc g) = do
    out ← serial_groups g
    columns ← serial_columns g job.nc
    ok (out ++ (columns ++ (closed ∷ [])))

  -- The file after the first `c` columns of row group `g`.
  abbrev pub serial_at : ℕ → ℕ → Result (List (Event C))
  serial_at g c = do out ← serial_groups g; columns ← serial_columns g c; ok (out ++ columns)

  pub serial_open :
      (g : ℕ) (out : List (Event C))
      → serial_groups g ≡ ok out
      → serial_at g 0 ≡ ok (out ++ (opened ∷ []))
  unfolding serial_columns
  serial_open g out h = rw h

  pub serial_append :
      (g c : ℕ) (x : C) (out : List (Event C))
      → encode_column g c ≡ ok x
      → serial_at g c ≡ ok out
      → serial_at g (suc c) ≡ ok (out ++ (chunk x ∷ []))
  unfolding serial_columns
  serial_append g c x out hx h =
      let (before, e, rest) = bind_ok (serial_groups g) _ h in
      let (columns, f, last) = bind_ok (serial_columns g c) _ rest in
      rw (e, f, hx)
        (ap ok (
          sym (append_assoc before columns (chunk x ∷ []))
          ∙ ap (λ o. o ++ (chunk x ∷ [])) (ok_inj last)))

  pub serial_close :
      (g : ℕ) (out : List (Event C))
      → serial_at g job.nc ≡ ok out
      → serial_groups (suc g) ≡ ok (out ++ (closed ∷ []))
  unfolding serial_groups
  serial_close g out h =
      let (before, e, rest) = bind_ok (serial_groups g) _ h in
      let (columns, f, last) = bind_ok (serial_columns g job.nc) _ rest in
      rw (e, f)
        (ap ok (
          sym (append_assoc before columns (closed ∷ []))
          ∙ ap (λ o. o ++ (closed ∷ [])) (ok_inj last)))

  -- What a worker holds is a task with its own writer.
  abbrev pub WorkerOk : Worker W → Type ℓ
  WorkerOk (encoding i g c w) = IsTask job i g c w
  WorkerOk w = Unit

  -- A chunk that waits for the master is that of its task.
  abbrev pub ChunkOk : ℕ → C → Type (ℓ ⊔ κ)
  ChunkOk i x = (g : ℕ) × (c : ℕ) × (w : W) × IsTask job i g c w × (job.encode g c w ≡ ok x)

  -- Where the master is, what it consumed, and that the file so far is the serial writer's.
  abbrev pub MasterOk : Master C → ℕ → List (Event C) → Type κ
  MasterOk (opening g) head out = (head ≡ g * job.nc) × (g ≤ job.nrg) × (serial_groups g ≡ ok out)
  MasterOk (looking g c) head out =
      (head ≡ g * job.nc + c) × (g < job.nrg) × (c < job.nc) × (serial_at g c ≡ ok out)
  MasterOk (waiting g c) head out =
      (head ≡ g * job.nc + c) × (g < job.nrg) × (c < job.nc) × (serial_at g c ≡ ok out)
  MasterOk (appending g c x) head out =
      (head ≡ g * job.nc + suc c)
      × (g < job.nrg)
      × (c < job.nc)
      × (serial_at g c ≡ ok out)
      × (encode_column g c ≡ ok x)
  MasterOk (closing g) head out =
      (head ≡ suc g * job.nc) × (g < job.nrg) × (serial_at g job.nc ≡ ok out)
  MasterOk releasing head out = (head ≡ job.nrg * job.nc) × (serial_groups job.nrg ≡ ok out)
  MasterOk (ended (ok r)) head out = (head ≡ job.nrg * job.nc) × (serial_groups job.nrg ≡ ok out)
  MasterOk m head out = Unit

module _ {ℓ κ} {W : Type ℓ} {C : Type κ} (job : Job W C) where
  abbrev pub EachChunk : List (ℕ × C) → Type (ℓ ⊔ κ)
  EachChunk [] = Unit
  EachChunk ((i, x) ∷ m) = ChunkOk job i x × EachChunk m

  pub EachChunk-lookup :
      (i : ℕ) (m : List (ℕ × C)) (x : C) → lookup i m ≡ some x → EachChunk m → ChunkOk job i x
  EachChunk-lookup i [] x h held = cc
  EachChunk-lookup i ((j, y) ∷ m) x h (first, rest) = elim (Bool-cases (i == j)) [
    | inl same ↦
        let e : i ≡ j = ground (arith, same) in
        let v : y ≡ x = some_inj.0 (sym (rw same) ∙ h) in
        subst (λ k. ChunkOk job k x) (sym e) (subst (ChunkOk job j) v first)
    | inr other ↦ EachChunk-lookup i m x (sym (rw other) ∙ h) rest
  ]

  pub EachChunk-remove : (i : ℕ) (m : List (ℕ × C)) → EachChunk m → EachChunk (remove i m)
  EachChunk-remove i [] h = tt
  EachChunk-remove i ((j, y) ∷ m) (first, rest) = elim (Bool-cases (i == j)) [
    | inl same ↦ rw same (EachChunk-remove i m rest)
    | inr other ↦ rw other (first, EachChunk-remove i m rest)
  ]

  -- Tasks are handed out in order, at most `window` ahead of the master.
  pub record QueueOk (q : Q W C) : Type (ℓ ⊔ κ) where
    pub writers : WritersOk job q.next q.wr
    pub bounded : q.next ≤ job.nrg * job.nc
    pub ahead : q.next ≤ q.head + job.window
    pub chunks : EachChunk q.done

  pub record Inv (s : State W C) : Type (ℓ ⊔ κ) where
    pub queue_ok : QueueOk s.queue
    pub tasks : Each (WorkerOk job) s.workers
    pub placed : MasterOk job s.master s.queue.head s.out
