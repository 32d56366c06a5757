-- ===== src/Pool.antt =====
-- src/pool.rs: the worker threads of the library. One step of a thread is one hold of the lock, or
-- one piece of work outside of it; the waits on the two condition variables are states that a
-- notification ends.
pub mod Threads
pub mod Invariant
pub mod Sections
pub mod Steps
pub mod Dispatch
pub mod Laws
pub mod Ends
use parquet_interop.Prelude.{
  ℕ, ◌+◌, ◌-◌, ◌%◌, ◌^◌, ◌≤◌, ◌<◌, Bool, true, false, ◌&&◌, not, Option, none, some, List, [], ◌∷◌,
  ◌++◌, map, leb, ltb, ◌==◌, if◌then◌else◌, length,
}

-- `State`, under the lock. A job is whatever a caller lends.
pub record Board (J : Type 0) : Type 0 where
  pub job : Option J
  pub gen : ℕ
  pub want : ℕ
  pub left : ℕ
  pub panics : ℕ

-- Where a worker is: not started, before its lock section with the `gen` it has seen, asleep on
-- `work`, in a job, or before the second lock section, with whether the job panicked.
pub data Worker (J : Type 0) : Type 0 where
  unborn : Worker J
  looking parked : ℕ → Worker J
  running : ℕ → J → Worker J
  finishing : ℕ → Bool → Worker J

-- Where the caller is that holds `busy`: nobody does, in `me` with the job it has lent, before its
-- lock section with the value of `me`, none for a panic, or asleep on `done`.
pub data Caller (J V : Type 0) : Type 0 where
  resting : Caller J V
  working : J → Caller J V
  joining asleep : J → Option V → Caller J V

abbrev pub flag : Bool → ℕ
flag true = 1
flag false = 0

-- `left -= 1` on a `usize`.
abbrev pub dec : ℕ → ℕ
dec n = (n + (2 ^ 64 - 1)) % 2 ^ 64

module _ {J : Type 0} where
  unfoldable pub idle_board : Board J
  idle_board = record { job = none; gen = 0; want = 0; left = 0; panics = 0 }

  -- The first lock section of `serve`: what a worker `idx` that has seen `seen` does.
  unfoldable pub look : ℕ → ℕ → Board J → Worker J
  look idx seen b =
      let mine : Option J = if ltb idx b.want then b.job else none in
      if b.gen == seen
      then parked seen
      else elim mine as (λ j. Worker J) [ none ↦ looking b.gen | some j ↦ running b.gen j ]

  -- The second lock section.
  unfoldable pub finish : Bool → Board J → Board J
  finish bad b = record b { panics = (b.panics + flag bad) % 2 ^ 64; left = dec b.left }

  -- A step of `serve`: none while the worker is asleep. `bad` tells whether the job panics.
  unfoldable pub serve_step : Bool → ℕ → Worker J → Board J → Option (Worker J × Board J)
  unfolding look finish
  serve_step bad idx unborn b = some (looking 0, b)
  serve_step bad idx (looking seen) b = some (look idx seen b, b)
  serve_step bad idx (parked seen) b = none
  serve_step bad idx (running seen j) b = some (finishing seen bad, b)
  serve_step bad idx (finishing seen panicked) b = some (looking seen, finish panicked b)

  -- The lock section of `run` that lends a job to `n` workers.
  unfoldable pub lend : J → ℕ → Board J → Board J
  lend j n b = record { job = some j; gen = (b.gen + 1) % 2 ^ 64; want = n; left = n; panics = 0 }

  abbrev pub rouse : Worker J → Worker J
  rouse (parked seen) = looking seen
  rouse w = w

module _ {V : Type 0} where
  -- The answer of `run`: the value of `me`, and whether a worker panicked; none where `me` did.
  abbrev pub answer : Option V → ℕ → Option (V × Bool)
  answer none panics = none
  answer (some v) panics = some (v, ltb 0 panics)

module _ {J V : Type 0} where
  -- The lock section of `run` that waits: the answer where the wait is over.
  unfoldable pub join : J → Option V → Board J → (Caller J V × Board J) × Option (Option (V × Bool))
  join j r b =
      if b.left == 0
      then ((resting, record b { job = none }), some (answer r b.panics))
      else ((asleep j r, b), none)

  -- `run` from the lent job on; `r` is what `me` gives, none for a panic.
  unfoldable pub run_step :
      Option V → Caller J V → Board J → Option ((Caller J V × Board J) × Option (Option (V × Bool)))
  unfolding join
  run_step r resting b = none
  run_step r (working j) b = some ((joining j r, b), none)
  run_step r (joining j v) b = some (join j v b)
  run_step r (asleep j v) b = none

  -- `notify_all` on `done`.
  abbrev pub rouse_caller : Caller J V → Caller J V
  rouse_caller (asleep j v) = joining j v
  rouse_caller c = c

-- How `run` goes about its work: alone, on fresh threads, or on `n` workers of the pool.
pub data Route : Type 0 where
  alone fresh : Route
  pooled : ℕ → Route

-- The tests at the start of `run`. `forked` tells of another process id.
unfoldable pub route : Bool → ℕ → Bool → ℕ → ℕ → Route
route forked ready busy size n =
    if n == 0
    then alone
    else if not forked && leb n ready && not busy
    then pooled (if leb n size then n else size)
    else fresh

-- The panics that `spawned` counts as it joins its threads.
abbrev pub panicked : List Bool → ℕ
panicked [] = 0
panicked (bad ∷ threads) = flag bad + panicked threads

-- `spawned`, with what `me` gives and which of its threads panic.
unfoldable pub spawned : {V : Type 0} → Option V → List Bool → Option (V × Bool)
spawned r threads = answer r (panicked threads)
