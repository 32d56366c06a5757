-- ===== src/Read/Fill/Bools.antt =====
-- src/read.rs, `fill_col` at KB, and src/write.rs, `col_to_arrow` at KB: Boolean columns, a bit for
-- each value in Arrow and a byte in the host.
use parquet_interop.Prelude.{
  ℕ, suc, ◌+◌, ◌≤◌, ◌≡◌, refl, sym, ap, ◌∙◌, Bool, true, false, not, Option, none, some, List, [],
  ◌∷◌, ◌++◌, map, ◌==◌, arith, if◌then◌else◌, length, length-set, set, set_step, take, drop,
  take-append-drop, length-take_of_le, Result, ok, err,
}
use native.Mathlib.Nat.{add-zero}
use mathlib.Core.Path.{ap₂}
use parquet_interop.Read.Nulls.{BitChunks}
use parquet_interop.Read.Fill.{null_rows}
use parquet_interop.Read.Fill.Rows.{Stands, Stands-length, read_row, null_rows_lem}

-- Arrow's `BooleanArray`: the bits of its values in order, and a validity bitmap if a row may be
-- null.
pub record BooleanArray : Type 0 where
  pub values : List Bool
  pub nulls : Option BitChunks

-- `as u8`
abbrev pub as_byte : Bool → ℕ
as_byte false = 0
as_byte true = 1

-- `for i in 0..a.len()`, where `i` is the row that `off + i` stands for.
unfoldable pub store_bools : ℕ → List Bool → List ℕ → List ℕ
store_bools i [] d = d
store_bools i (b ∷ bs) d = store_bools (i + 1) bs (set d i (as_byte b))

-- The array is absent where the downcast fails.
unfoldable pub fill_bools : Option BooleanArray → List ℕ → ℕ → Result (List ℕ)
unfolding store_bools
fill_bools none dst off = err "pq_read: bool layout"
fill_bools (some a) dst off = ok (null_rows 0 a.nulls off (store_bools off a.values dst))

-- `BooleanBuffer::collect_bool` over the task's rows.
unfoldable pub col_bools : List ℕ → List Bool
col_bools xs = map (λ x. not (x == 0)) xs

store_bools_lem :
    (bs : List Bool) (i : ℕ) (d : List ℕ)
    → i + length bs ≤ length d
    → store_bools i bs d ≡ take i d ++ (map as_byte bs ++ drop (i + length bs) d)
unfolding store_bools
store_bools_lem [] i d h = rw (add-zero i) (sym (take-append-drop i d))
store_bools_lem (b ∷ bs) i d h =
    store_bools_lem bs (i + 1) (set d i (as_byte b)) (omega (arith, length-set d i (as_byte b)))
    ∙ set_step d i (length bs) (as_byte b) (map as_byte bs) (omega arith)

-- A Boolean column gives each row its byte, and a null row the byte 0. The rows before and behind
-- the batch keep what they held.
pub fill_bools_rows :
    (a : BooleanArray) (rows : List (Option Bool)) (dst : List ℕ) (off : ℕ)
    → Stands rows a.values a.nulls
    → off + length rows ≤ length dst
    → fill_bools (some a) dst off
      ≡ ok (take off dst ++ (map (read_row 0 as_byte) rows ++ drop (off + length rows) dst))
unfolding fill_bools
fill_bools_rows a rows dst off stands fit =
    let pre = take off dst in
    let post = drop (off + length a.values) dst in
    let here : length pre ≡ off = length-take_of_le off dst (omega arith) in
    let count = Stands-length rows a.values a.nulls stands in
    ap ok (
      ap (null_rows 0 a.nulls off) (store_bools_lem a.values off dst (omega (arith, count)))
      ∙ ap (λ k. null_rows 0 a.nulls k (pre ++ (map as_byte a.values ++ post))) (sym here)
      ∙ null_rows_lem 0 a.nulls rows as_byte pre a.values post stands
      ∙ rw count)

-- A written Boolean column reads back as it was written, every byte but 0 as 1. `a` is what the
-- file gives back for the array that was written: it stands for the same rows.
pub col_bools-fill_bools :
    (xs : List ℕ) (a : BooleanArray) (dst : List ℕ) (off : ℕ)
    → Stands (map some (col_bools xs)) a.values a.nulls
    → off + length xs ≤ length dst
    → fill_bools (some a) dst off
      ≡ ok (take off dst ++ (map (λ x. if x == 0 then 0 else 1) xs ++ drop (off + length xs) dst))
unfolding col_bools
col_bools-fill_bools xs a dst off stands fit =
    let count = count_lem xs in
    fill_bools_rows a (map some (map (λ x. not (x == 0)) xs)) dst off stands (omega (arith, count))
    ∙ rw (count, bytes_back xs)
  where
    count_lem : (ys : List ℕ) → length (map some (map (λ x. not (x == 0)) ys)) ≡ length ys
    count_lem [] = refl
    count_lem (y ∷ ys) = ap suc (count_lem ys)

    byte_back : (b : Bool) → as_byte (not b) ≡ (if b then 0 else 1)
    byte_back true = refl
    byte_back false = refl

    bytes_back :
        (ys : List ℕ)
        → map (read_row 0 as_byte) (map some (map (λ x. not (x == 0)) ys))
          ≡ map (λ x. if x == 0 then 0 else 1) ys
    bytes_back [] = refl
    bytes_back (y ∷ ys) = ap₂ ◌∷◌ (byte_back (y == 0)) (bytes_back ys)
