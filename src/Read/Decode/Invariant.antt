-- ===== src/Read/Decode/Invariant.antt =====
-- src/read.rs, `decode`: what holds of the threads between two steps.
use Prim.Native.String.{String}
use parquet_interop.Prelude.{
  ℕ, ◌+◌, ◌≤◌, ◌<◌, ◌≡◌, refl, arith, Bool, true, false, Option, none, some, List, [], ◌∷◌, ltb,
  ◌==◌, ◌⊎◌,
}
use parquet_interop.Prelude.Crew.{total, Each}
use parquet_interop.Read.Decode.{
  Outcome, panicked, refused, Body, testing, claiming, decoding, stopping, storing, ended, dead,
  State, get_or_insert,
}

abbrev pub flag : Bool → ℕ
flag true = 1
flag false = 0

abbrev pub given : Option String → ℕ
given none = 0
given (some e) = 1

abbrev pub is_ended : Body → ℕ
is_ended testing = 0
is_ended claiming = 0
is_ended (decoding i) = 0
is_ended (stopping e) = 0
is_ended (storing e) = 0
is_ended ended = 1
is_ended dead = 0

abbrev pub is_dead : Body → ℕ
is_dead testing = 0
is_dead claiming = 0
is_dead (decoding i) = 0
is_dead (stopping e) = 0
is_dead (storing e) = 0
is_dead ended = 0
is_dead dead = 1

abbrev pub is_raising : Body → ℕ
is_raising testing = 0
is_raising claiming = 0
is_raising (decoding i) = 0
is_raising (stopping e) = 1
is_raising (storing e) = 1
is_raising ended = 0
is_raising dead = 0

abbrev pub is_storing : Body → ℕ
is_storing testing = 0
is_storing claiming = 0
is_storing (decoding i) = 0
is_storing (stopping e) = 0
is_storing (storing e) = 1
is_storing ended = 0
is_storing dead = 0

abbrev pub is_busy : Body → ℕ
is_busy testing = 1
is_busy claiming = 1
is_busy (decoding i) = 1
is_busy (stopping e) = 1
is_busy (storing e) = 1
is_busy ended = 0
is_busy dead = 0

abbrev pub each : Body → ℕ
each w = 1

abbrev pub decodes : ℕ → Body → ℕ
decodes i (decoding j) = flag (j == i)
decodes i w = 0

abbrev pub runs_of : ℕ → List (ℕ × Outcome) → ℕ
runs_of i [] = 0
runs_of i ((j, o) ∷ ran) = flag (j == i) + runs_of i ran

abbrev pub is_panic : Outcome → ℕ
is_panic panicked = 1
is_panic o = 0

abbrev pub is_refusal : Outcome → ℕ
is_refusal (refused e) = 1
is_refusal o = 0

pub is_ended-le : (ws : List Body) → total is_ended ws ≤ total each ws
is_ended-le [] = omega arith
is_ended-le (testing ∷ ws) = omega (arith, is_ended-le ws)
is_ended-le (claiming ∷ ws) = omega (arith, is_ended-le ws)
is_ended-le (decoding i ∷ ws) = omega (arith, is_ended-le ws)
is_ended-le (stopping e ∷ ws) = omega (arith, is_ended-le ws)
is_ended-le (storing e ∷ ws) = omega (arith, is_ended-le ws)
is_ended-le (ended ∷ ws) = omega (arith, is_ended-le ws)
is_ended-le (dead ∷ ws) = omega (arith, is_ended-le ws)

pub given-get_or_insert : (e : String) (o : Option String) → given (get_or_insert e o) ≡ 1
given-get_or_insert e none = refl
given-get_or_insert e (some first) = refl

module _ (n : ℕ) (one : ℕ → Outcome) where
  -- Some task comes to this.
  abbrev pub Comes : Outcome → Type 0
  Comes o = (i : ℕ) × (i < n) × (one i ≡ o)

  abbrev pub BodyOk : Bool → Body → Type 0
  BodyOk stop (decoding i) = i < n
  BodyOk stop (stopping e) = Comes (refused e)
  BodyOk stop (storing e) = (stop ≡ true) × Comes (refused e)
  BodyOk stop dead = Comes panicked
  BodyOk stop w = Unit

  abbrev pub RunOk : ℕ × Outcome → Type 0
  RunOk (i, o) = (i < n) × (one i ≡ o)

  abbrev pub ErrorOk : Option String → Type 0
  ErrorOk none = Unit
  ErrorOk (some e) = Comes (refused e)

  pub BodyOk-raised : (stop : Bool) (ws : List Body) → Each (BodyOk stop) ws → Each (BodyOk true) ws
  BodyOk-raised stop [] h = tt
  BodyOk-raised stop (testing ∷ ws) h = (tt, BodyOk-raised stop ws h.1)
  BodyOk-raised stop (claiming ∷ ws) h = (tt, BodyOk-raised stop ws h.1)
  BodyOk-raised stop (decoding i ∷ ws) h = (h.0, BodyOk-raised stop ws h.1)
  BodyOk-raised stop (stopping e ∷ ws) h = (h.0, BodyOk-raised stop ws h.1)
  BodyOk-raised stop (storing e ∷ ws) h = ((refl, h.0.1), BodyOk-raised stop ws h.1)
  BodyOk-raised stop (ended ∷ ws) h = (tt, BodyOk-raised stop ws h.1)
  BodyOk-raised stop (dead ∷ ws) h = (h.0, BodyOk-raised stop ws h.1)

  pub ErrorOk-get_or_insert :
      (e : String) (o : Option String) → Comes (refused e) → ErrorOk o → ErrorOk (get_or_insert e o)
  ErrorOk-get_or_insert e none comes held = comes
  ErrorOk-get_or_insert e (some first) comes held = held

  pub record Inv (threads : ℕ) (s : State) : Type 0 where
    pub cursor : s.shared.next ≤ n + total is_ended s.bodies
    pub slots :
        (i : ℕ)
        → i < n
        → runs_of i s.shared.ran + total (decodes i) s.bodies ≡ flag (ltb i s.shared.next)
    pub true_runs : Each RunOk s.shared.ran
    pub bodies_ok : Each (BodyOk s.shared.stop) s.bodies
    pub error_ok : ErrorOk s.shared.error
    pub deaths : total (λ r. is_panic r.1) s.shared.ran ≤ total is_dead s.bodies
    pub refusals :
        total (λ r. is_refusal r.1) s.shared.ran ≤ 0
        ⊎ (0 < given s.shared.error + total is_raising s.bodies)
    pub stopped : s.shared.stop ≡ true → 0 < given s.shared.error + total is_storing s.bodies
    pub full : 0 < total is_ended s.bodies → s.shared.stop ≡ false → n ≤ s.shared.next
    pub size : total each s.bodies ≡ threads
