-- ===== src/Tests/Queue.antt =====
-- src/write.rs: the queue with one worker, at a table of one row group and one column.
use parquet_interop.Prelude.{ℕ, ◌+◌, ◌*◌, ◌≤◌, ◌≡◌, refl, ◌⊎◌, inr, none, List, [], ◌∷◌, arith, ok}
use parquet_interop.Write.Queue.{Q, new_queue, claim, hand_out, take_writer, take_at, take_chunk}
use parquet_interop.Write.Queue.Threads.{
  Job, State, claiming, encoding, opening, looking, waiting, appending, closing, releasing, ended,
  opened, closed, chunk, silent, one_master, one_work, all_work, Worker, Master, Event, after_claim,
  after_encode, after_look, worker_step, master_step, at, Step, by_worker, by_master, start, Reach,
  here, next,
}
use parquet_interop.Write.Queue.Serial.{serial_groups}
use parquet_interop.Write.Queue.Serial.Moves.{queue-serial}
use parquet_interop.Write.Queue.Progress.{IsOver, queue-progress}
use parquet_interop.Write.Queue.Bounded.{Run, still, onward, queue-bounded, queue-ends}

-- The one writer is 7, and the chunk tells its task.
abbrev small_job : Job ℕ ℕ
small_job = record {
  nc = 1;
  nrg = 1;
  window = 1;
  columns = 7 ∷ [];
  encode = λ g c w. ok (100 * g + 10 * c + w);
}

abbrev empty_queue : Q ℕ ℕ
empty_queue = new_queue

abbrev claimed_queue : Q ℕ ℕ
claimed_queue = record empty_queue { next = 1 }

abbrev done_queue : Q ℕ ℕ
done_queue = record claimed_queue { done = (0, 7) ∷ [] }

abbrev taken_queue : Q ℕ ℕ
taken_queue = record claimed_queue { head = 1 }

abbrev state : Q ℕ ℕ → Worker ℕ → Master ℕ → List (Event ℕ) → State ℕ ℕ
state q w m out = record { queue = q; workers = w ∷ []; master = m; out = out }

abbrev task : Worker ℕ
task = encoding 0 0 0 7

abbrev file : List (Event ℕ)
file = opened ∷ chunk 7 ∷ closed ∷ []

claims : Step small_job (start 1) (state claimed_queue task (opening 0) [])
unfolding worker_step after_claim claim hand_out take_writer take_at
claims = by_worker none claiming task silent (task ∷ []) refl (at [] [] refl refl) (refl, refl) refl

opens :
    Step small_job
      (state claimed_queue task (opening 0) [])
      (state claimed_queue task (looking 0 0) (opened ∷ []))
unfolding master_step
opens = by_master none (looking 0 0) silent (opened ∷ []) refl (refl, refl) refl

-- The chunk is not there yet.
waits_for :
    Step small_job
      (state claimed_queue task (looking 0 0) (opened ∷ []))
      (state claimed_queue task (waiting 0 0) (opened ∷ []))
unfolding master_step after_look take_chunk
waits_for = by_master none (waiting 0 0) silent [] refl (refl, refl) refl

finishes :
    Step small_job
      (state claimed_queue task (waiting 0 0) (opened ∷ []))
      (state done_queue claiming (looking 0 0) (opened ∷ []))
unfolding worker_step after_encode
finishes =
    by_worker none task claiming one_master (claiming ∷ []) refl (at [] [] refl refl) (refl, refl)
      refl

takes :
    Step small_job
      (state done_queue claiming (looking 0 0) (opened ∷ []))
      (state taken_queue claiming (appending 0 0 7) (opened ∷ []))
unfolding master_step after_look take_chunk
takes = by_master none (appending 0 0 7) one_work [] refl (inr (refl, refl), refl) refl

appends :
    Step small_job
      (state taken_queue claiming (appending 0 0 7) (opened ∷ []))
      (state taken_queue claiming (closing 0) (opened ∷ chunk 7 ∷ []))
unfolding master_step
appends = by_master none (closing 0) silent (chunk 7 ∷ []) refl (refl, refl) refl

closes :
    Step small_job
      (state taken_queue claiming (closing 0) (opened ∷ chunk 7 ∷ []))
      (state taken_queue claiming (opening 1) file)
unfolding master_step
closes = by_master none (opening 1) silent (closed ∷ []) refl (refl, refl) refl

ends :
    Step small_job
      (state taken_queue claiming (opening 1) file)
      (state taken_queue claiming releasing file)
unfolding master_step
ends = by_master none releasing silent [] refl (refl, refl) refl

releases :
    Step small_job
      (state taken_queue claiming releasing file)
      (state taken_queue claiming (ended (ok tt)) file)
unfolding master_step
releases = by_master none (ended (ok tt)) all_work [] refl (refl, refl) refl

all_reached : Reach small_job 1 (state taken_queue claiming (ended (ok tt)) file)
all_reached =
    next
      (next
        (next
          (next (next (next (next (next (next here claims) opens) waits_for) finishes) takes)
            appends)
          closes)
        ends)
      releases

queue-serial_example : serial_groups small_job 1 ≡ ok file
queue-serial_example =
    queue-serial small_job refl 1 (state taken_queue claiming (ended (ok tt)) file) (omega arith)
      all_reached refl

half_way : Reach small_job 1 (state claimed_queue task (waiting 0 0) (opened ∷ []))
half_way = next (next (next here claims) opens) waits_for

first_move :
    IsOver (state claimed_queue task (waiting 0 0) (opened ∷ []))
    ⊎ ((t : State ℕ ℕ) × Step small_job (state claimed_queue task (waiting 0 0) (opened ∷ [])) t)
first_move =
    queue-progress small_job 1 (omega arith) (omega arith)
      (state claimed_queue task (waiting 0 0) (opened ∷ [])) (omega arith) refl half_way

queue-ends_example :
    (k : ℕ) × (t : State ℕ ℕ) × Run small_job k
      (state claimed_queue task (waiting 0 0) (opened ∷ []))
      t
    × IsOver t
queue-ends_example =
    queue-ends small_job 1 (state claimed_queue task (waiting 0 0) (opened ∷ [])) (omega arith)
      (omega arith) (omega arith) refl half_way

queue-bounded_example : 3 ≤ 1 * (1 + 6) + 1 * (4 * 1 + 8) + 1 + 5 + 3 * (1 * 1)
queue-bounded_example =
    queue-bounded small_job 1 3 (state claimed_queue task (waiting 0 0) (opened ∷ [])) (omega arith)
      refl (onward claims (onward opens (onward waits_for still)))
