-- ===== src/Tests/Pool.antt =====
-- src/pool.rs: a pool of one thread that runs the job 7, which panics.
use parquet_interop.Prelude.{
  ℕ, ◌+◌, ◌*◌, ◌≤◌, ◌<◌, ◌≡◌, ◌⊎◌, refl, arith, Bool, true, false, Option, none, some, [], ◌∷◌,
  length, ltb,
}
use parquet_interop.Prelude.Crew.{at}
use parquet_interop.Pool.{
  idle_board, unborn, looking, running, finishing, Caller, resting, joining, flag, look, finish,
  serve_step, lend, answer, join, run_step, fresh, route, spawned,
}
use parquet_interop.Pool.Threads.{
  Pool, new_pool, moved, advanced, dispatched, Step, by_worker, by_caller, lent, Reach, here, next,
  again,
}
use parquet_interop.Pool.Invariant.{runs_of, panics_of}
use parquet_interop.Pool.Laws.{Lends, running-Lends, join-answer}
use parquet_interop.Pool.Ends.{Run, IsQuiet, pool-progress, pool-bounded, pool-ends, done, step}

abbrev fresh_pool : Pool ℕ ℕ
fresh_pool = new_pool 1

abbrev born_pool : Pool ℕ ℕ
born_pool = moved fresh_pool 0 unborn ((0, looking 0) ∷ []) fresh_pool.board

abbrev lent_pool : Pool ℕ ℕ
lent_pool = dispatched born_pool 7 1

abbrev busy_pool : Pool ℕ ℕ
busy_pool = moved lent_pool 0 (looking 0) ((0, running 1 7) ∷ []) lent_pool.board

born_reached : Reach 1 1 0 born_pool
unfolding serve_step idle_board
born_reached =
    next here
      (by_worker false 0 unborn (looking 0) ((0, looking 0) ∷ []) _ refl (at [] [] refl refl))

lent_reached : Reach 1 1 1 lent_pool
unfolding route idle_board lend
lent_reached = again born_reached (lent 7 1 1 refl (omega arith) refl)

busy_reached : Reach 1 1 1 busy_pool
unfolding serve_step idle_board lend look
busy_reached =
    next lent_reached (by_worker false 0 (looking 0) (running 1 7) _ _ refl (at [] [] refl refl))

running-Lends_example : Lends busy_pool.caller 7
running-Lends_example = running-Lends 1 1 1 (omega arith) busy_pool busy_reached 0 1 7 [] [] refl

-- `me` gives 5, and the worker panics.
abbrev joining_pool : Pool ℕ ℕ
joining_pool = advanced busy_pool (joining 7 (some 5)) busy_pool.board none

abbrev panicked_pool : Pool ℕ ℕ
panicked_pool = moved joining_pool 0 (running 1 7) ((0, finishing 1 true) ∷ []) joining_pool.board

abbrev over_pool : Pool ℕ ℕ
over_pool =
    moved panicked_pool 0 (finishing 1 true) ((0, looking 1) ∷ []) (finish true panicked_pool.board)

me_is_back : Step busy_pool joining_pool
unfolding run_step
me_is_back = by_caller (some 5) (joining 7 (some 5)) _ none refl

job_panics : Step joining_pool panicked_pool
unfolding serve_step
job_panics = by_worker true 0 (running 1 7) (finishing 1 true) _ _ refl (at [] [] refl refl)

job_is_over : Step panicked_pool over_pool
unfolding serve_step
job_is_over = by_worker false 0 (finishing 1 true) (looking 1) _ _ refl (at [] [] refl refl)

over_reached : Reach 1 1 1 over_pool
over_reached = next (next (next busy_reached me_is_back) job_panics) job_is_over

over_step :
    run_step none over_pool.caller over_pool.board
    ≡ some ((resting, record over_pool.board { job = none }), some (some (5, true)))
unfolding run_step join idle_board lend finish
over_step = refl

join-answer_example :
    (◌≡◌ {A = Caller ℕ ℕ} resting resting)
    × (◌≡◌ {A = Option (ℕ × Bool)} (some (5, true)) (answer (some 5) (panics_of over_pool.ran)))
    × (length over_pool.ran ≡ over_pool.board.want)
    × ((i : ℕ) → i < 1 → runs_of i over_pool.ran ≡ flag (ltb i over_pool.board.want))
unfolding finish lend
join-answer_example =
    join-answer 1 1 1 (omega arith) over_pool over_reached 7 (some 5) none resting _
      (some (5, true)) refl over_step

pool-progress_example : ((t : Pool ℕ ℕ) × Step busy_pool t) ⊎ IsQuiet busy_pool
pool-progress_example = pool-progress 1 1 1 (omega arith) busy_pool busy_reached

pool-ends_example : (m : ℕ) × (t : Pool ℕ ℕ) × Run m busy_pool t × IsQuiet t
pool-ends_example = pool-ends 1 1 1 (omega arith) busy_pool busy_reached

pool-bounded_example : 3 ≤ 6 * 1 + 2
pool-bounded_example =
    pool-bounded 1 1 1 (omega arith) 3 busy_pool over_pool busy_reached
      (step me_is_back (step job_panics (step job_is_over done)))

route_forked : route true 4 false 4 2 ≡ fresh
unfolding route
route_forked = refl

spawned_panic : spawned {V = ℕ} (some 5) (false ∷ true ∷ []) ≡ some (5, true)
unfolding spawned
spawned_panic = refl
