-- ===== src/Prelude/Crew.antt =====
-- A list of threads of which one moves at a time.
use mathlib.Core.Path.{subst}
use parquet_interop.Prelude.{ℕ, ◌+◌, ◌≤◌, ◌≡◌, sym, ap, arith, List, [], ◌∷◌, ◌++◌}

-- Element `w` becomes `w'`.
pub data Change {ℓ} {A : Type ℓ} (w w' : A) (ws ws' : List A) : Type ℓ where
  at : (pre post : List A) → ws ≡ pre ++ (w ∷ post) → ws' ≡ pre ++ (w' ∷ post) → Change w w' ws ws'

module _ {ℓ} {A : Type ℓ} where
  abbrev pub total : (A → ℕ) → List A → ℕ
  total f [] = 0
  total f (x ∷ xs) = f x + total f xs

module _ {ℓ} {A : Type ℓ} where
  total_middle :
      (f : A → ℕ) (pre post : List A) (x : A)
      → total f (pre ++ (x ∷ post)) ≡ total f (pre ++ post) + f x
  total_middle f [] post x = omega arith
  total_middle f (y ∷ pre) post x = omega (arith, total_middle f pre post x)

  -- A change of one element changes a count by that element.
  pub total-change :
      (f : A → ℕ) {x y : A} {xs ys : List A}
      → Change x y xs ys
      → total f ys + f x ≡ total f xs + f y
  total-change f {x} {y} (at pre post e g) =
      let before : total f _ ≡ total f _ = ap (total f) e in
      let after : total f _ ≡ total f _ = ap (total f) g in
      omega (arith, before, after, total_middle f pre post x, total_middle f pre post y)

  pub total-member-le : (f : A → ℕ) {x y : A} {xs ys : List A} → Change x y xs ys → f x ≤ total f xs
  total-member-le f {x} (at pre post e g) = omega (arith, ap (total f) e, total_middle f pre post x)

module _ {ℓ κ} {A : Type ℓ} where
  abbrev pub Each : (A → Type κ) → List A → Type κ
  Each P [] = Unit
  Each P (x ∷ xs) = P x × Each P xs

  each_middle :
      (P : A → Type κ) (pre post : List A) {x y : A}
      → Each P (pre ++ (x ∷ post))
      → P x × (P y → Each P (pre ++ (y ∷ post)))
  each_middle P [] post h = (h.0, λ p. (p, h.1))
  each_middle P (z ∷ pre) post h =
      let rest = each_middle P pre post h.1 in (rest.0, λ p. (h.0, rest.1 p))

  -- A change touches one element.
  pub Each-change :
      (P : A → Type κ) {x y : A} {xs ys : List A}
      → Change x y xs ys
      → Each P xs
      → P x × (P y → Each P ys)
  Each-change P (at pre post e f) h =
      let rest = each_middle P pre post (subst (Each P) e h) in
      (rest.0, λ p. subst (Each P) (sym f) (rest.1 p))
