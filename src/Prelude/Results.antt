-- ===== src/Prelude/Results.antt =====
-- Rust's `Result<T, String>`, with `?` as the bind of a `do` block.
use Prim.Native.String.{String}
use mathlib.Core.Path.{◌≡◌, refl}

pub data Result {ℓ} (A : Type ℓ) : Type ℓ where
  ok : A → Result A
  err : String → Result A

infixl 5 ◌>>=◌
abbrev pub ◌>>=◌ {ℓ μ} : {T : Type ℓ} {U : Type μ} → Result T → (T → Result U) → Result U
err message >>= next = err message
ok value >>= next = next value

pub ok_inj {ℓ} : {T : Type ℓ} {a b : T} → ok a ≡ ok b → a ≡ b
ok_inj h = cc

-- A chain that succeeds succeeded in its first step.
pub bind_ok {ℓ μ} :
    {T : Type ℓ} {U : Type μ} (m : Result T) (next : T → Result U) {u : U}
    → (m >>= next) ≡ ok u
    → (t : T) × (m ≡ ok t) × (next t ≡ ok u)
bind_ok (err message) next h = cc
bind_ok (ok value) next h = (value, refl, h)
