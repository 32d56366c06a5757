-- ===== src/Read/One/Tiles.antt =====
-- src/read.rs, `one`: the rows of a column that a list of calls fills, along a chain of steps.
use mathlib.Core.Option.{some_inj}
use parquet_interop.Prelude.{
  ℕ, ◌+◌, ◌≡◌, refl, ap, ◌∙◌, arith, Option, none, some, List, [], ◌∷◌, ◌++◌, ◌==◌, if◌then◌else◌,
  ok, err, true, Bool-cases, inl, inr,
}
use parquet_interop.Read.One.{Call, Log, then_log}

-- Where the calls for column `p` end, if each begins where the one before it ended.
unfoldable pub tiled : ℕ → ℕ → List Call → Option ℕ
tiled p from [] = some from
tiled p from (c ∷ calls) =
    let onward = tiled p (from + c.rows) calls in
    let past = tiled p from calls in
    if c.out == p then (if c.from == from then onward else none) else past

-- How often a column stands in a part.
abbrev pub count : ℕ → List ℕ → ℕ
count p [] = 0
count p (q ∷ qs) = (if q == p then 1 else 0) + count p qs

tiled-append :
    (p from mid : ℕ) (xs ys : List Call)
    → tiled p from xs ≡ some mid
    → tiled p from (xs ++ ys) ≡ tiled p mid ys
unfolding tiled
tiled-append p from mid [] ys = λ h. ap (λ a. tiled p a ys) (some_inj.0 h)
tiled-append p from mid (c ∷ xs) ys = elim (Bool-cases (c.out == p)) [
  | inr other ↦ rw (other, tiled) (tiled-append p from mid xs ys)
  | inl same ↦ elim (Bool-cases (c.from == from)) [
    | inr gap ↦ rw (same, gap, tiled) (λ h. cc)
    | inl next ↦ rw (same, next, tiled) (tiled-append p (from + c.rows) mid xs ys)
  ]
]

-- A chain that succeeds did so in both of its parts.
pub record Both {A B : Type 0} (m : Log B) (next : B → Log A) (a : A) (calls : List Call)
    : Type 0 where
  pub value : B
  pub first : m.1 ≡ ok value
  pub second : (next value).1 ≡ ok a
  pub whole : calls ≡ m.0 ++ (next value).0

pub then_log_ok :
    {A B : Type 0} (m : Log B) (next : B → Log A) (a : A)
    → (then_log m next).1 ≡ ok a
    → Both m next a (then_log m next).0
then_log_ok (calls, err e) next a h = cc
then_log_ok (calls, ok b) next a h = record { value = b; first = refl; second = h; whole = refl }

-- Where column `p` gets to by a call of its own.
pub one_call :
    (p q from rows : ℕ)
    → tiled p from (record { out = q; from = from; rows = rows } ∷ [])
      ≡ some (from + (if q == p then rows else 0))
unfolding tiled
one_call p q from rows = elim (Bool-cases (q == p)) [
  | inr other ↦ rw (other, tiled) (ap some (omega arith))
  | inl same ↦ let here : (from == from) ≡ true = ground arith in rw (same, here, tiled) refl
]

module _ {A B : Type 0} where
  -- Where column `p` gets to in a chain that succeeds.
  pub chain-tiled :
      (p from mid to : ℕ) (m : Log B) (next : B → Log A) (a : A)
      → (then_log m next).1 ≡ ok a
      → tiled p from m.0 ≡ some mid
      → ((b : B) → m.1 ≡ ok b → (next b).1 ≡ ok a → tiled p mid (next b).0 ≡ some to)
      → tiled p from (then_log m next).0 ≡ some to
  chain-tiled p from mid to (calls, err e) next a h first second = cc
  chain-tiled p from mid to (calls, ok b) next a h first second =
      tiled-append p from mid calls (next b).0 first ∙ second b refl h
