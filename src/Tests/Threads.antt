-- ===== src/Tests/Threads.antt =====
-- src/read.rs, `decode`: two threads and one task, which is refused.
use parquet_interop.Prelude.{
  ℕ, ◌+◌, ◌*◌, ◌≤◌, ◌≡◌, refl, arith, true, false, none, some, [], ◌∷◌, err,
}
use parquet_interop.Prelude.Crew.{at, total}
use parquet_interop.Read.Decode.{
  Outcome, refused, testing, claiming, decoding, stopping, storing, ended, State, body_step,
  after_task, by_body, start, Reach, here, step, decode_answer,
}
use parquet_interop.Read.Decode.Invariant.{is_busy}
use parquet_interop.Read.Decode.Answer.{Answered, decode-Answered}
use parquet_interop.Read.Decode.Ends.{Run, decode-ends}

abbrev task : ℕ → Outcome
task i = refused "short"

abbrev at_start : State
at_start = start 1 task 1

abbrev claimed : State
claimed = record {
  shared = record { next = 1; stop = false; error = none; ran = [] };
  bodies = decoding 0 ∷ [];
}

claimed_reached : Reach 1 task 1 claimed
unfolding body_step
claimed_reached =
    step (step here (by_body false testing claiming (claiming ∷ []) _ refl (at [] [] refl refl)))
      (by_body false claiming (decoding 0) _ _ refl (at [] [] refl refl))

abbrev over : State
over = record {
  shared = record { next = 1; stop = true; error = some "short"; ran = (0, refused "short") ∷ [] };
  bodies = ended ∷ [];
}

over_reached : Reach 1 task 1 over
unfolding body_step after_task
over_reached =
    step
      (step
        (step claimed_reached (
          by_body false (decoding 0) (stopping "short") (stopping "short" ∷ []) _ refl
            (at [] [] refl refl)))
        (by_body false (stopping "short") (storing "short") (storing "short" ∷ []) _ refl
          (at [] [] refl refl)))
      (by_body false (storing "short") ended _ _ refl (at [] [] refl refl))

decode-Answered_example : Answered 1 task over.shared.ran (decode_answer "worker panic" over)
decode-Answered_example =
    decode-Answered 1 task 1 (omega arith) "worker panic" over over_reached (omega arith) refl

over_answer : decode_answer "worker panic" over ≡ some (err "short")
unfolding decode_answer
over_answer = refl

decode-ends_example :
    ((m : ℕ) × (t : State) × Run 1 task m claimed t × (total is_busy t.bodies ≡ 0))
    × ((m : ℕ) (t : State) → Run 1 task m claimed t → m ≤ 5 * 1 + 4 * 1)
decode-ends_example = decode-ends 1 task 1 (omega arith) claimed claimed_reached
