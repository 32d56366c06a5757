-- ===== src/Meta/Leaf.antt =====
-- src/meta.rs, `leaf_map`: the one leaf column of each root column of a file, if it has just one.
pub mod Unique
use parquet_interop.Prelude.{
  ℕ, zero, suc, ◌+◌, Option, none, some, List, ◌==◌, if◌then◌else◌, get_elem?, set, replicate,
}

-- The two vectors of the loop: the leaf of each root, and how many leaves it has had.
pub record Leaves : Type 0 where
  pub leaf : List (Option ℕ)
  pub count : List ℕ

-- One round: leaf `l` belongs to root `r`. A root past the end is passed over.
unfoldable pub add_leaf : Leaves → ℕ → ℕ → Leaves
add_leaf s l r = elim (get_elem? s.count r) [
  | none ↦ s
  | some k ↦ record {
    leaf = set s.leaf r (if suc k == 1 then some l else none);
    count = set s.count r (suc k);
  }
]

-- `for l in 0..num_columns`, with `left` rounds to go. `root_of` is `get_column_root_idx`.
unfoldable pub leaf_loop : (ℕ → ℕ) → ℕ → ℕ → Leaves → Leaves
leaf_loop root_of zero l s = s
leaf_loop root_of (suc left) l s = leaf_loop root_of left (suc l) (add_leaf s l (root_of l))

-- `fields` is the number of root columns, `columns` that of leaf columns.
unfoldable pub leaf_map : (ℕ → ℕ) → ℕ → ℕ → List (Option ℕ)
unfolding leaf_loop add_leaf
leaf_map root_of fields columns =
    let start : Leaves = record { leaf = replicate fields none; count = replicate fields 0 } in
    (leaf_loop root_of columns 0 start).leaf
