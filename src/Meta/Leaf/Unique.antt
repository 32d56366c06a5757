-- ===== src/Meta/Leaf/Unique.antt =====
-- src/meta.rs, `leaf_map`: a root has an entry exactly if it has one leaf, and then it is that leaf.
use parquet_interop.Prelude.{
  ℕ, zero, suc, ◌+◌, ◌<◌, ◌≡◌, ◌≢◌, ◌↔◌, refl, sym, ap, ◌∙◌, inl, inr, Option, none, some, arith,
  ◌==◌, if◌then◌else◌, length, get_elem?, replicate, Bool-cases, get_elem?_bound,
  get_elem?-replicate, Option-cases, get_elem?-set_self, get_elem?-set_ne, length-set,
  length-replicate,
}
use mathlib.Core.Path.{subst}
use native.Mathlib.Decide.{ℕ_discrete as dec_eq}
use native.Mathlib.Nat.{add-zero, zero-add, suc-add, add-suc}
use parquet_interop.Meta.Leaf.{Leaves, add_leaf, leaf_loop, leaf_map}

-- `l` is the only leaf of root `r` among the first `n`.
pub record IsOnlyLeaf (root_of : ℕ → ℕ) (n r l : ℕ) : Type 0 where
  pub below : l < n
  pub of_root : root_of l ≡ r
  pub only : (k : ℕ) → k < n → root_of k ≡ r → k ≡ l

module _ (root_of : ℕ → ℕ) (r : ℕ) where
  -- How many of the first `n` leaves belong to `r`, and the last of those.
  tally : ℕ → ℕ
  tally zero = 0
  tally (suc n) = if root_of n == r then suc (tally n) else tally n

  last_leaf : ℕ → ℕ
  last_leaf zero = 0
  last_leaf (suc n) = if root_of n == r then n else last_leaf n

  tally_pos : (n k : ℕ) → k < n → root_of k ≡ r → 0 < tally n
  unfolding tally
  tally_pos zero k lt e = absurd (omega arith)
  tally_pos (suc n) k lt e = ground (arith, tally_pos n k)

  last_leaf_lem : (n : ℕ) → 0 < tally n → (last_leaf n < n) × (root_of (last_leaf n) ≡ r)
  unfolding tally last_leaf
  last_leaf_lem zero h = absurd (omega arith)
  last_leaf_lem (suc n) h = ground (arith, last_leaf_lem n)

  tally_one : (n k : ℕ) → tally n ≡ 1 → k < n → root_of k ≡ r → k ≡ last_leaf n
  unfolding tally last_leaf
  tally_one zero k e lt root = absurd (omega arith)
  tally_one (suc n) k e lt root = ground (arith, tally_one n k, tally_pos n k)

  tally_none : (n : ℕ) → ((k : ℕ) → k < n → root_of k ≢ r) → tally n ≡ 0
  unfolding tally
  tally_none zero h = refl
  tally_none (suc n) h = ground (arith, h n (omega arith), tally_none n (λ k lt. h k (omega arith)))

  tally_of_only : (n l : ℕ) → IsOnlyLeaf root_of n r l → (tally n ≡ 1) × (last_leaf n ≡ l)
  unfolding tally last_leaf
  tally_of_only zero l h = absurd (omega arith)
  tally_of_only (suc n) l h = elim (Bool-cases (root_of n == r)) [
    | inl here ↦
        let last : n ≡ l = h.only n (omega arith) (ground arith) in
        let before : tally n ≡ 0 =
          tally_none n (λ k lt e. omega (arith, h.only k (omega arith) e)) in
        ground (arith, last, before)
    | inr elsewhere ↦ ground (
      arith,
      h.of_root,
      h.below,
      tally_of_only n l (record {
        below = ground (arith, h.of_root, h.below);
        of_root = h.of_root;
        only = λ k lt e. h.only k (omega arith) e;
      }),
    )
  ]

  -- What the loop holds for `r` behind the first `n` leaves.
  record Tracks (n : ℕ) (s : Leaves) : Type 0 where
    sizes : length s.leaf ≡ length s.count
    counted : get_elem? s.count r ≡ some (tally n)
    stored : get_elem? s.leaf r ≡ some (if tally n == 1 then some (last_leaf n) else none)

  add_self : (s : Leaves) (n : ℕ) → Tracks n s → root_of n ≡ r → Tracks (suc n) (add_leaf s n r)
  unfolding add_leaf tally last_leaf
  add_self s n t e =
      let k = tally n in
      let now : Option ℕ = if suc k == 1 then some n else none in
      let inside : r < length s.count = get_elem?_bound s.count r t.counted in
      ground (
        arith,
        length-set s.leaf r now,
        length-set s.count r (suc k),
        get_elem?-set_self s.count r (suc k) inside,
        get_elem?-set_self s.leaf r now (omega (arith, inside, t.sizes)),
      )

  add_other :
      (s : Leaves) (n : ℕ) → Tracks n s → root_of n ≢ r → Tracks (suc n) (add_leaf s n (root_of n))
  unfolding add_leaf tally last_leaf
  add_other s n t e = elim (Option-cases (get_elem? s.count (root_of n))) [
    | inl past ↦ ground arith
    | inr (k, at) ↦
        let now : Option ℕ = if suc k == 1 then some n else none in
        ground (
          arith,
          length-set s.leaf (root_of n) now,
          length-set s.count (root_of n) (suc k),
          get_elem?-set_ne s.count (suc k) e,
          get_elem?-set_ne s.leaf now e,
        )
  ]

  leaf_loop-Tracks :
      (left n : ℕ) (s : Leaves) → Tracks n s → Tracks (n + left) (leaf_loop root_of left n s)
  unfolding leaf_loop
  leaf_loop-Tracks zero n s t = rw add-zero t
  leaf_loop-Tracks (suc left) n s t =
      rw (add-suc, ← suc-add)
        (leaf_loop-Tracks left (suc n) (add_leaf s n (root_of n)) (step (dec_eq (root_of n) r)))
    where
      step : Dec (root_of n ≡ r) → Tracks (suc n) (add_leaf s n (root_of n))
      step (yes e) = subst (λ q. Tracks (suc n) (add_leaf s n q)) (sym e) (add_self s n t e)
      step (no e) = add_other s n t e

  Tracks-start :
      (fields : ℕ)
      → r < fields
      → Tracks 0 (record { leaf = replicate fields none; count = replicate fields 0 })
  unfolding tally
  Tracks-start fields h = record {
    sizes = length-replicate fields none ∙ sym (length-replicate fields 0);
    counted = get_elem?-replicate fields 0 r h;
    stored = get_elem?-replicate fields none r h;
  }

  entry :
      (fields columns : ℕ)
      → r < fields
      → get_elem? (leaf_map root_of fields columns) r
        ≡ some (if tally columns == 1 then some (last_leaf columns) else none)
  unfolding leaf_map
  entry fields columns h =
      rw zero-add at (leaf_loop-Tracks columns 0 _ (Tracks-start fields h)).stored

  -- For every root column `r` of a file, `leaf_map` has entry `l` exactly if `l` is the only leaf
  -- column that belongs to `r`; a root with no leaf, or with several, has none.
  pub leaf_map_unique :
      (fields columns l : ℕ)
      → r < fields
      → (get_elem? (leaf_map root_of fields columns) r ≡ some (some l))
        ↔ IsOnlyLeaf root_of columns r l
  leaf_map_unique fields columns l h = (
    λ e.
        let one : tally columns ≡ 1 = ground (arith, entry fields columns h) in
        let last : last_leaf columns ≡ l = ground (arith, entry fields columns h) in
        let (below, root) = last_leaf_lem columns (omega arith) in
        record {
          below = omega (arith, last, below);
          of_root = ap root_of (sym last) ∙ root;
          only = λ k lt e. tally_one columns k one lt e ∙ last;
        },
    λ only.
        let (one, last) = tally_of_only columns l only in
        ground (arith, entry fields columns h, one, last),
  )
