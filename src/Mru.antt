-- ===== src/Mru.antt =====
-- The lists that the caches of src/read.rs (`SymCache::dicts`, `SymCache::luts`) and src/meta.rs
-- (`FOOTERS`) are kept as: the most recently used entry first, a bounded number of entries.
pub mod Laws
use parquet_interop.Prelude.{
  ℕ, zero, suc, ◌-◌, Bool, Option, none, some, List, [], ◌∷◌, ◌++◌, if◌then◌else◌, take, drop,
}

module _ {ℓ} {A : Type ℓ} where
  -- `iter().position(p)`
  unfoldable pub position : (A → Bool) → List A → Option ℕ
  position p [] = none
  position p (x ∷ xs) =
      if p x then some 0 else elim (position p xs) [ none ↦ none | some i ↦ some (suc i) ]

  after_first : A → List A → List A
  after_first x [] = x ∷ []
  after_first x (y ∷ ys) = y ∷ x ∷ ys

  -- `rotate_right(1)`: the last element comes to the front.
  unfoldable pub rotate_right : List A → List A
  unfolding after_first
  rotate_right [] = []
  rotate_right (x ∷ xs) = after_first x (rotate_right xs)

  -- `xs[..=i].rotate_right(1)`: entry `i` comes to the front.
  unfoldable pub to_front : ℕ → List A → List A
  unfolding rotate_right
  to_front i xs = rotate_right (take (suc i) xs) ++ drop (suc i) xs

  -- `truncate(cap - 1)`, then `insert(0, x)`.
  unfoldable pub push_front : ℕ → A → List A → List A
  push_front cap x xs = x ∷ take (cap - 1) xs
