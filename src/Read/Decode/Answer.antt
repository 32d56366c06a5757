-- ===== src/Read/Decode/Answer.antt =====
-- src/read.rs, `decode`: every task is run once, or the answer says why not.
use Prim.Native.String.{String}
use mathlib.Core.Path.{subst}
use parquet_interop.Prelude.{
  ℕ, ◌+◌, ◌^◌, ◌<◌, ◌≡◌, refl, sym, ap, ◌∙◌, arith, Bool, true, false, Option, none, some, List, [],
  ◌∷◌, ◌==◌, Result, ok, err, take, Bool-cases, Option-cases, inl, inr, ◌⊎◌,
}
use parquet_interop.Prelude.Crew.{total, Each}
use parquet_interop.Read.Decode.{
  Outcome, finished, panicked, refused, Body, testing, claiming, decoding, stopping, storing, ended,
  dead, State, Reach, has_died, decode_answer,
}
use parquet_interop.Read.Decode.Steps.{Reach-Inv}
use parquet_interop.Read.Decode.Invariant.{
  given, is_ended, is_dead, is_raising, is_storing, is_busy, each, decodes, runs_of, is_panic,
  is_refusal, Comes, BodyOk, RunOk, ErrorOk, Inv,
}

-- Threads that are over were ended or died.
record Over (ws : List Body) : Type 0 where
  back : total is_ended ws + total is_dead ws ≡ total each ws
  still : (i : ℕ) → total (decodes i) ws ≡ 0
  quiet : total is_raising ws + total is_storing ws ≡ 0

over_lem : (ws : List Body) → total is_busy ws ≡ 0 → Over ws
over_lem [] over = record { back = refl; still = λ i. refl; quiet = refl }
over_lem (testing ∷ ws) over = absurd (omega arith)
over_lem (claiming ∷ ws) over = absurd (omega arith)
over_lem (decoding i ∷ ws) over = absurd (omega arith)
over_lem (stopping e ∷ ws) over = absurd (omega arith)
over_lem (storing e ∷ ws) over = absurd (omega arith)
over_lem (ended ∷ ws) over =
    let h = over_lem ws (omega arith) in
    record {
      back = omega (arith, h.back);
      still = λ i. omega (arith, h.still i);
      quiet = omega (arith, h.quiet);
    }
over_lem (dead ∷ ws) over =
    let h = over_lem ws (omega arith) in
    record {
      back = omega (arith, h.back);
      still = λ i. omega (arith, h.still i);
      quiet = omega (arith, h.quiet);
    }

none_dead : (ws : List Body) → has_died ws ≡ false → total is_dead ws ≡ 0
none_dead [] h = refl
none_dead (testing ∷ ws) h = omega (arith, none_dead ws h)
none_dead (claiming ∷ ws) h = omega (arith, none_dead ws h)
none_dead (decoding i ∷ ws) h = omega (arith, none_dead ws h)
none_dead (stopping e ∷ ws) h = omega (arith, none_dead ws h)
none_dead (storing e ∷ ws) h = omega (arith, none_dead ws h)
none_dead (ended ∷ ws) h = omega (arith, none_dead ws h)
none_dead (dead ∷ ws) h = cc

first_dead : (ws : List Body) → has_died (take 1 ws) ≡ true → has_died ws ≡ true
first_dead [] h = cc
first_dead (testing ∷ ws) h = cc
first_dead (claiming ∷ ws) h = cc
first_dead (decoding i ∷ ws) h = cc
first_dead (stopping e ∷ ws) h = cc
first_dead (storing e ∷ ws) h = cc
first_dead (ended ∷ ws) h = cc
first_dead (dead ∷ ws) h = refl

module _ (n : ℕ) (one : ℕ → Outcome) where
  died-Comes :
      (stop : Bool) (ws : List Body)
      → has_died ws ≡ true
      → Each (BodyOk n one stop) ws
      → Comes n one panicked
  died-Comes stop [] died held = cc
  died-Comes stop (testing ∷ ws) died held = died-Comes stop ws died held.1
  died-Comes stop (claiming ∷ ws) died held = died-Comes stop ws died held.1
  died-Comes stop (decoding i ∷ ws) died held = died-Comes stop ws died held.1
  died-Comes stop (stopping e ∷ ws) died held = died-Comes stop ws died held.1
  died-Comes stop (storing e ∷ ws) died held = died-Comes stop ws died held.1
  died-Comes stop (ended ∷ ws) died held = died-Comes stop ws died held.1
  died-Comes stop (dead ∷ ws) died held = held.0

  -- A task that was run, where no run failed, is finished.
  run_finished :
      (i : ℕ) (ran : List (ℕ × Outcome))
      → Each (RunOk n one) ran
      → total (λ r. is_panic r.1) ran + total (λ r. is_refusal r.1) ran ≡ 0
      → 0 < runs_of i ran
      → one i ≡ finished
  run_finished i [] held clean some_run = absurd (omega arith)
  run_finished i ((j, panicked) ∷ ran) held clean some_run = absurd (omega arith)
  run_finished i ((j, refused e) ∷ ran) held clean some_run = absurd (omega arith)
  run_finished i ((j, finished) ∷ ran) held clean some_run = elim (Bool-cases (j == i)) [
    | inl same ↦ let here : j ≡ i = ground (arith, same) in ap one (sym here) ∙ held.0.1
    | inr other ↦ run_finished i ran held.1 (omega arith) (ground (arith, some_run, other))
  ]

  -- What an answer tells of the tasks.
  abbrev pub Answered : List (ℕ × Outcome) → Option (Result (Unit {0})) → Type 0
  Answered ran none = Comes n one panicked
  Answered ran (some (err e)) = Comes n one (refused e) ⊎ Comes n one panicked
  Answered ran (some (ok done)) = (i : ℕ) → i < n → (one i ≡ finished) × (runs_of i ran ≡ 1)

  module _ (threads : ℕ) (room : n + threads < 2 ^ 64) where
    all_run :
        (s : State)
        → Inv n one threads s
        → 0 < threads
        → total is_busy s.bodies ≡ 0
        → s.shared.error ≡ none
        → has_died s.bodies ≡ false
        → (i : ℕ) → i < n
        → (one i ≡ finished) × (runs_of i s.shared.ran ≡ 1)
    all_run s h some_thread over clean alive i below =
        let o = over_lem s.bodies over in
        let lively = none_dead s.bodies alive in
        let no_error = ap given clean in
        let going : s.shared.stop ≡ false = elim (Bool-cases s.shared.stop) [
          | inl stop ↦ absurd (omega (arith, h.stopped stop, no_error, o.quiet))
          | inr go ↦ go
        ] in
        let past = h.full (omega (arith, o.back, lively, h.size)) going in
        let once : runs_of i s.shared.ran ≡ 1 = ground (arith, h.slots i below, o.still i, past) in
        let refusals : total (λ r. is_refusal r.1) s.shared.ran ≡ 0 =
          ground (arith, h.refusals, no_error, o.quiet) in
        (
          run_finished i s.shared.ran h.true_runs (omega (arith, h.deaths, lively, refusals))
              (omega (arith, once)),
          once,
        )

    -- When every thread of `decode` is over, an answer without an error means that every task was
    -- run exactly once and finished; an error is that of a task that was refused, or some task
    -- panicked; and the caller unwinds only where some task panicked. What a task comes to is taken
    -- not to depend on the others, and the threads and the tasks to be fewer than 2 ^ 64 together;
    -- loads of `stop` may be late.
    pub decode-Answered :
        (panic : String) (s : State)
        → Reach n one threads s
        → 0 < threads
        → total is_busy s.bodies ≡ 0
        → Answered s.shared.ran (decode_answer panic s)
    unfolding decode_answer
    decode-Answered panic s reached some_thread over =
        let h = Reach-Inv n one threads room s reached in
        elim (Bool-cases (has_died (take 1 s.bodies))) [
          | inl first ↦
              rw (first, decode_answer)
                (died-Comes s.shared.stop s.bodies (first_dead s.bodies first) h.bodies_ok)
          | inr lives ↦ elim (Option-cases s.shared.error) [
            | inr (e, failed) ↦
                rw (lives, failed, decode_answer) (inl (subst (ErrorOk n one) failed h.error_ok))
            | inl clean ↦ elim (Bool-cases (has_died s.bodies)) [
              | inl died ↦
                  rw (lives, clean, died, decode_answer)
                    (inr (died-Comes s.shared.stop s.bodies died h.bodies_ok))
              | inr alive ↦
                  rw (lives, clean, alive, decode_answer) (all_run s h some_thread over clean alive)
            ]
          ]
        ]
