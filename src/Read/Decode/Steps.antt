-- ===== src/Read/Decode/Steps.antt =====
-- src/read.rs, `decode`: every step keeps the invariant of the threads.
use Prim.Native.String.{String}
use mathlib.Core.Path.{subst}
use mathlib.Core.Option.{some_inj}
use parquet_interop.Prelude.{
  ℕ, zero, suc, ◌+◌, ◌%◌, ◌^◌, ◌≤◌, ◌<◌, ◌≡◌, refl, arith, Bool, true, false, ◌&&◌, not, some, List,
  ◌∷◌, leb, if◌then◌else◌, replicate, Bool-cases, inl, inr,
}
use parquet_interop.Prelude.Crew.{Change, total, total-change, Each, Each-change}
use parquet_interop.Read.Decode.{
  Outcome, finished, panicked, refused, Body, testing, claiming, decoding, stopping, storing, ended,
  dead, Shared, State, get_or_insert, after_task, body_step, by_body, Reach, here, step,
}
use parquet_interop.Read.Decode.Invariant.{
  is_ended, is_dead, is_raising, is_storing, each, decodes, is_panic, is_refusal, is_ended-le,
  given-get_or_insert, BodyOk, BodyOk-raised, ErrorOk-get_or_insert, Inv,
}

module _ (n : ℕ) (one : ℕ → Outcome) where
  module _ (threads : ℕ) (room : n + threads < 2 ^ 64) where
    -- What one step keeps, as far as the thread that moves does not change the shared state.
    abbrev Kept : State → Body → List Body → Body × Shared → Type 0
    Kept s w ws (w', sh) =
        Change w w' s.bodies ws
        → Inv n one threads s
        → Inv n one threads (record { shared = sh; bodies = ws })

    test_keeps :
        (s : State) (ws : List Body) (late : Bool)
        → Kept s testing ws (if s.shared.stop && not late then ended else claiming, s.shared)
    test_keeps s ws late = elim (Bool-cases (s.shared.stop && not late)) [
      | inl seen ↦ rw seen (λ change h. record {
        cursor = omega (arith, h.cursor, total-change is_ended change);
        slots = λ i below. omega (arith, h.slots i below, total-change (decodes i) change);
        true_runs = h.true_runs;
        bodies_ok = (Each-change (BodyOk n one s.shared.stop) change h.bodies_ok).1 tt;
        error_ok = h.error_ok;
        deaths = omega (arith, h.deaths, total-change is_dead change);
        refusals = ground (arith, h.refusals, total-change is_raising change);
        stopped = λ stop. omega (arith, h.stopped stop, total-change is_storing change);
        full = λ some_ended go. ground (arith, seen, go);
        size = omega (arith, h.size, total-change each change);
      })
      | inr go_on ↦ rw go_on (λ change h. record {
        cursor = omega (arith, h.cursor, total-change is_ended change);
        slots = λ i below. omega (arith, h.slots i below, total-change (decodes i) change);
        true_runs = h.true_runs;
        bodies_ok = (Each-change (BodyOk n one s.shared.stop) change h.bodies_ok).1 tt;
        error_ok = h.error_ok;
        deaths = omega (arith, h.deaths, total-change is_dead change);
        refusals = ground (arith, h.refusals, total-change is_raising change);
        stopped = λ stop. omega (arith, h.stopped stop, total-change is_storing change);
        full = λ some_ended go. h.full (omega (arith, some_ended, total-change is_ended change)) go;
        size = omega (arith, h.size, total-change each change);
      })
    ]

    claim_keeps :
        (s : State) (ws : List Body)
        → Kept s claiming ws (
          (if leb n s.shared.next then ended else decoding s.shared.next),
          record s.shared { next = (s.shared.next + 1) % 2 ^ 64 },
        )
    claim_keeps s ws = elim (Bool-cases (leb n s.shared.next)) [
      | inl past ↦ rw past (λ change h.
          let none_left : n ≤ s.shared.next = ground (arith, past) in
          let counted : s.shared.next + 1 ≤ n + threads = omega (
            arith,
            h.cursor,
            h.size,
            total-change is_ended change,
            total-change each change,
            is_ended-le ws,
          ) in
          let next_is : (s.shared.next + 1) % 2 ^ 64 ≡ s.shared.next + 1 =
            omega (arith, counted, room) in
          record {
            cursor = omega (arith, h.cursor, total-change is_ended change, next_is);
            slots = λ i below.
                ground
                  (arith, h.slots i below, total-change (decodes i) change, next_is, none_left);
            true_runs = h.true_runs;
            bodies_ok = (Each-change (BodyOk n one s.shared.stop) change h.bodies_ok).1 tt;
            error_ok = h.error_ok;
            deaths = omega (arith, h.deaths, total-change is_dead change);
            refusals = ground (arith, h.refusals, total-change is_raising change);
            stopped = λ stop. omega (arith, h.stopped stop, total-change is_storing change);
            full = λ some_ended go. omega (arith, none_left, next_is);
            size = omega (arith, h.size, total-change each change);
          })
      | inr more ↦ rw more (λ change h.
          let inside : s.shared.next < n = ground (arith, more) in
          let next_is : (s.shared.next + 1) % 2 ^ 64 ≡ s.shared.next + 1 =
            omega (arith, inside, room) in
          record {
            cursor = omega (arith, next_is, inside);
            slots = λ i below.
                ground (arith, h.slots i below, total-change (decodes i) change, next_is);
            true_runs = h.true_runs;
            bodies_ok = (Each-change (BodyOk n one s.shared.stop) change h.bodies_ok).1 inside;
            error_ok = h.error_ok;
            deaths = omega (arith, h.deaths, total-change is_dead change);
            refusals = ground (arith, h.refusals, total-change is_raising change);
            stopped = λ stop. omega (arith, h.stopped stop, total-change is_storing change);
            full = λ some_ended go. omega (
              arith,
              h.full (omega (arith, some_ended, total-change is_ended change)) go,
              inside,
            );
            size = omega (arith, h.size, total-change each change);
          })
    ]

    -- What the three outcomes of a task share.
    task_over :
        (s : State) (ws : List Body) (i : ℕ) (o : Outcome) (w : Body)
        → one i ≡ o
        → is_ended w + is_storing w ≡ 0
        → ((p : ℕ) → decodes p w ≡ 0)
        → is_dead w ≡ is_panic o
        → is_raising w ≡ is_refusal o
        → (i < n → BodyOk n one s.shared.stop w)
        → Kept s (decoding i) ws (w, record s.shared { ran = (i, o) ∷ s.shared.ran })
    task_over s ws i o w comes back idle died raised fine change h =
        let (inside, rest) = Each-change (BodyOk n one s.shared.stop) change h.bodies_ok in
        record {
          cursor = omega (arith, h.cursor, total-change is_ended change, back);
          slots =
              λ p below. omega (arith, h.slots p below, total-change (decodes p) change, idle p);
          true_runs = ((inside, comes), h.true_runs);
          bodies_ok = rest (fine inside);
          error_ok = h.error_ok;
          deaths = omega (arith, h.deaths, total-change is_dead change, died);
          refusals = ground (arith, h.refusals, total-change is_raising change, raised);
          stopped = λ stop. omega (arith, h.stopped stop, total-change is_storing change, back);
          full = λ some_ended go.
              h.full (omega (arith, some_ended, total-change is_ended change, back)) go;
          size = omega (arith, h.size, total-change each change);
        }

    task_keeps :
        (s : State) (ws : List Body) (i : ℕ) (o : Outcome)
        → one i ≡ o
        → Kept s (decoding i) ws (after_task o, record s.shared { ran = (i, o) ∷ s.shared.ran })
    unfolding after_task
    task_keeps s ws i finished comes =
        task_over s ws i finished testing comes refl (λ p. refl) refl refl (λ inside. tt)
    task_keeps s ws i panicked comes =
        task_over s ws i panicked dead comes refl (λ p. refl) refl refl
          (λ inside. (i, inside, comes))
    task_keeps s ws i (refused e) comes =
        task_over s ws i (refused e) (stopping e) comes refl (λ p. refl) refl refl
          (λ inside. (i, inside, comes))

    stop_keeps :
        (s : State) (ws : List Body) (e : String)
        → Kept s (stopping e) ws (storing e, record s.shared { stop = true })
    stop_keeps s ws e change h =
        let (comes, rest) =
          Each-change (BodyOk n one true) change
            (BodyOk-raised n one s.shared.stop s.bodies h.bodies_ok) in
        record {
          cursor = omega (arith, h.cursor, total-change is_ended change);
          slots = λ i below. omega (arith, h.slots i below, total-change (decodes i) change);
          true_runs = h.true_runs;
          bodies_ok = rest (refl, comes);
          error_ok = h.error_ok;
          deaths = omega (arith, h.deaths, total-change is_dead change);
          refusals = ground (arith, h.refusals, total-change is_raising change);
          stopped = λ stop. omega (arith, total-change is_storing change);
          full = λ some_ended go. cc;
          size = omega (arith, h.size, total-change each change);
        }

    store_keeps :
        (s : State) (ws : List Body) (e : String)
        → Kept s (storing e) ws (ended, record s.shared { error = get_or_insert e s.shared.error })
    store_keeps s ws e change h =
        let ((raised, comes), rest) = Each-change (BodyOk n one s.shared.stop) change h.bodies_ok in
        let there = given-get_or_insert e s.shared.error in
        record {
          cursor = omega (arith, h.cursor, total-change is_ended change);
          slots = λ i below. omega (arith, h.slots i below, total-change (decodes i) change);
          true_runs = h.true_runs;
          bodies_ok = rest tt;
          error_ok = ErrorOk-get_or_insert n one e s.shared.error comes h.error_ok;
          deaths = omega (arith, h.deaths, total-change is_dead change);
          refusals = inr (omega (arith, there));
          stopped = λ stop. omega (arith, there);
          full = λ some_ended go. cc;
          size = omega (arith, h.size, total-change each change);
        }

    body-Kept :
        (s : State) (late : Bool) (w : Body) (ws : List Body) (r : Body × Shared)
        → body_step n one late w s.shared ≡ some r
        → Kept s w ws r
    unfolding body_step
    body-Kept s late testing ws r go =
        subst (Kept s testing ws) (some_inj.0 go) (test_keeps s ws late)
    body-Kept s late claiming ws r go =
        subst (Kept s claiming ws) (some_inj.0 go) (claim_keeps s ws)
    body-Kept s late (decoding i) ws r go =
        subst (Kept s (decoding i) ws) (some_inj.0 go) (task_keeps s ws i (one i) refl)
    body-Kept s late (stopping e) ws r go =
        subst (Kept s (stopping e) ws) (some_inj.0 go) (stop_keeps s ws e)
    body-Kept s late (storing e) ws r go =
        subst (Kept s (storing e) ws) (some_inj.0 go) (store_keeps s ws e)
    body-Kept s late ended ws r go = cc
    body-Kept s late dead ws r go = cc

    all_testing :
        (m : ℕ)
        → (total is_ended (replicate m testing) ≡ 0) × (total each (replicate m testing) ≡ m)
    all_testing zero = (refl, refl)
    all_testing (suc m) = let h = all_testing m in (omega (arith, h.0), omega (arith, h.1))

    none_decodes : (m i : ℕ) → total (decodes i) (replicate m testing) ≡ 0
    none_decodes zero i = refl
    none_decodes (suc m) i = omega (arith, none_decodes m i)

    testing-BodyOk : (m : ℕ) → Each (BodyOk n one false) (replicate m testing)
    testing-BodyOk zero = tt
    testing-BodyOk (suc m) = (tt, testing-BodyOk m)

    pub Reach-Inv : (s : State) → Reach n one threads s → Inv n one threads s
    Reach-Inv s here = record {
      cursor = omega arith;
      slots = λ i below. ground (arith, none_decodes threads i);
      true_runs = tt;
      bodies_ok = testing-BodyOk threads;
      error_ok = tt;
      deaths = omega arith;
      refusals = inl (omega arith);
      stopped = λ stop. cc;
      full = λ some_ended go. absurd (omega (arith, some_ended, (all_testing threads).0));
      size = (all_testing threads).1;
    }
    Reach-Inv s (step {s = before} reached (by_body late w w' ws sh go change)) =
        body-Kept before late w ws (w', sh) go change (Reach-Inv before reached)
