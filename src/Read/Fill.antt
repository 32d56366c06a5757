-- ===== src/Read/Fill.antt =====
-- src/read.rs, `fill_prim`: a decoded Arrow batch is copied into the host vector, shifted to the
-- host's epoch, and its nulls become the host's null.
pub mod Rows
pub mod Bools
use parquet_interop.Prelude.{
  ℕ, ◌+◌, Option, none, some, List, ◌++◌, map, if◌then◌else◌, length, set, take, drop, Result, ok,
  err,
}
use parquet_interop.Native.{NativeOps}
use parquet_interop.Read.Nulls.{BitChunks, each_null}

-- An Arrow primitive array: a value for each row, and a validity bitmap if a row may be null.
pub record PrimArray {ℓ} (T : Type ℓ) : Type ℓ where
  pub values : List T
  pub nulls : Option BitChunks

module _ {ℓ} {T : Type ℓ} where
  -- `copy_nonoverlapping` to the rows from `off` on.
  abbrev pub copy_at : ℕ → List T → List T → List T
  copy_at off xs dst = take off dst ++ (xs ++ drop (off + length xs) dst)

  -- `for v in from_raw_parts_mut(d, n)`, where `d` is the row `off`.
  abbrev pub map_at : ℕ → ℕ → (T → T) → List T → List T
  map_at off n g dst = take off dst ++ (map g (take n (drop off dst)) ++ drop (off + n) dst)

module _ {ℓ} {T : Type ℓ} (nullv : T) where
  -- The null patch over the rows from `off` on.
  unfoldable pub null_rows : Option BitChunks → ℕ → List T → List T
  null_rows none off dst = dst
  null_rows (some bc) off dst = each_null (λ i d. set d (off + i) nullv) bc dst

module _ {ℓ} {T : Type ℓ} (o : NativeOps T) (nullv sh : T) where
  -- The shift of an element: what lies below the floor becomes null instead of wrapping.
  abbrev pub floor_shift : T → T
  floor_shift v = if o.is_lt v (o.add_wrapping nullv sh) then nullv else o.sub_wrapping v sh

  -- The epoch shift over the copied rows.
  unfoldable pub shift_rows : ℕ → ℕ → List T → List T
  shift_rows off n dst = if o.is_zero sh then dst else map_at off n floor_shift dst

  -- The array is absent where the downcast to the column's type fails.
  unfoldable pub fill_prim : Option (PrimArray T) → List T → ℕ → Result (List T)
  fill_prim none dst off = err "pq_read: unexpected array layout"
  fill_prim (some a) dst off =
      let n = length a.values in
      ok (null_rows nullv a.nulls off (shift_rows off n (copy_at off a.values dst)))
