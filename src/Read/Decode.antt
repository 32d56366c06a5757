-- ===== src/Read/Decode.antt =====
-- src/read.rs, `decode`: the threads that claim the tasks of a read from one cursor. A step is one
-- atomic operation, one hold of the lock, or one task; a relaxed load of `stop` may be late.
pub mod Invariant
pub mod Steps
pub mod Answer
pub mod Ends
use Prim.Native.String.{String}
use parquet_interop.Prelude.{
  ℕ, ◌+◌, ◌%◌, ◌^◌, ◌≡◌, Bool, true, false, ◌&&◌, not, Option, none, some, List, [], ◌∷◌, ltb, leb,
  ◌==◌, if◌then◌else◌, Result, ok, err, replicate, take,
}
use parquet_interop.Prelude.Crew.{Change}

-- What a task comes to: `one` is back, with an error, or with a panic.
pub data Outcome : Type 0 where
  finished panicked : Outcome
  refused : String → Outcome

-- Where a thread is: before the load of `stop`, before the claim, at a task, before the store to
-- `stop` and before the lock with its error, back, or dead of a panic.
pub data Body : Type 0 where
  testing claiming : Body
  decoding : ℕ → Body
  stopping storing : String → Body
  ended dead : Body

-- What the threads share, and the history of the tasks.
pub record Shared : Type 0 where
  pub next : ℕ
  pub stop : Bool
  pub error : Option String
  pub ran : List (ℕ × Outcome)

pub record State : Type 0 where
  pub shared : Shared
  pub bodies : List Body

-- `get_or_insert`
abbrev pub get_or_insert : String → Option String → Option String
get_or_insert e none = some e
get_or_insert e (some first) = some first

-- Where a thread goes from a task.
unfoldable pub after_task : Outcome → Body
after_task finished = testing
after_task panicked = dead
after_task (refused e) = stopping e

module _ (n : ℕ) (one : ℕ → Outcome) where
  -- A step of a thread, of `n` tasks; `late` tells of a load that misses the store.
  unfoldable pub body_step : Bool → Body → Shared → Option (Body × Shared)
  unfolding after_task
  body_step late testing s = some (if s.stop && not late then ended else claiming, s)
  body_step late claiming s =
      let i = s.next in
      some (if leb n i then ended else decoding i, record s { next = (i + 1) % 2 ^ 64 })
  body_step late (decoding i) s = some (after_task (one i), record s { ran = (i, one i) ∷ s.ran })
  body_step late (stopping e) s = some (storing e, record s { stop = true })
  body_step late (storing e) s = some (ended, record s { error = get_or_insert e s.error })
  body_step late ended s = none
  body_step late dead s = none

  pub data Step (s : State) : State → Type 0 where
    by_body :
        (late : Bool) (w w' : Body) (ws : List Body) (sh : Shared)
        → body_step late w s.shared ≡ some (w', sh)
        → Change w w' s.bodies ws
        → Step s (record { shared = sh; bodies = ws })

  abbrev pub start : ℕ → State
  start threads = record {
    shared = record { next = 0; stop = false; error = none; ran = [] };
    bodies = replicate threads testing;
  }

  pub data Reach (threads : ℕ) : State → Type 0 where
    here : Reach threads (start threads)
    step : {s t : State} → Reach threads s → Step s t → Reach threads t

abbrev pub has_died : List Body → Bool
has_died [] = false
has_died (dead ∷ ws) = true
has_died (w ∷ ws) = has_died ws

-- The answer of `decode`, once the threads are back: none where the caller, which is the first of
-- them, unwinds.
unfoldable pub decode_answer : String → State → Option (Result (Unit {0}))
decode_answer panic s =
    let taken : Result (Unit {0}) = elim s.shared.error [
      | some e ↦ err e
      | none ↦ if has_died s.bodies then err panic else ok tt
    ] in
    if has_died (take 1 s.bodies) then none else some taken
