-- ===== src/Write/Ints/Roundtrip.antt =====
-- src/write.rs, `col_to_arrow`, against src/read.rs, `fill_prim`: integer columns are read as they
-- were written.
use mathlib.Core.Path.{ap₂}
use parquet_interop.Prelude.{
  ℕ, suc, ◌+◌, ◌-◌, ◌≤◌, ◌<◌, ◌≡◌, refl, sym, ap, ◌∙◌, Bool, true, false, not, ◌&&◌, inl, inr,
  Option, none, some, List, [], ◌∷◌, ◌++◌, map, arith, if◌then◌else◌, length, length-map, take,
  drop, Bool-cases, ok,
}
use parquet_interop.Prelude.Int.{
  ℤ, pos, leb_ℤ, eqb_ℤ, Fits, null_of, wrap, wrap-Fits, ◌+ℤ◌, ◌-ℤ◌, +ℤ_parts, -ℤ_parts, eq_of_parts,
}
use parquet_interop.Native.{int_ops}
use parquet_interop.Read.Fill.{PrimArray, fill_prim}
use parquet_interop.Read.Fill.Rows.{Stands, read_row, fill_prim_rows}
use parquet_interop.Read.Patch.{rebase}
use parquet_interop.Read.Patch.Shift.{rebase_exact}
use parquet_interop.Write.Column.{PrimitiveArray, null_bits, col_prim}
use parquet_interop.Write.Column.Bitmap.{valid_rows, null_bits_lem, col_prim_lem}
use parquet_interop.Write.Ints.{is_valid, is_valid_shifted, col_ints, col_moments}

-- The rows of values under their validity.
abbrev pub masked {ℓ} : {T : Type ℓ} → List T → List Bool → List (Option T)
masked [] bs = []
masked (x ∷ xs) [] = []
masked (x ∷ xs) (b ∷ bs) = (if b then some x else none) ∷ masked xs bs

-- The rows that a written array stands for.
abbrev pub array_rows {ℓ} : {T : Type ℓ} → PrimitiveArray T → List (Option T)
array_rows a = masked a.values (valid_rows (length a.values) a.nulls)

abbrev pub AllFit : ℕ → List ℤ → Type 0
AllFit half [] = Unit
AllFit half (x ∷ xs) = Fits half x × AllFit half xs

-- A value as it comes back: null where the shifted value is not in the type.
abbrev pub kept : ℕ → ℕ → ℤ → ℤ
kept half s x = if leb_ℤ x (pos (half - 1 - s)) then x else null_of half

module _ (half s : ℕ) (small : s < half) where
  abbrev stored : ℤ → ℤ
  stored x = if eqb_ℤ (pos s) (pos 0) then x else wrap half (x +ℤ pos s)

  stored_lem : (x : ℤ) → Fits half x → leb_ℤ x (pos (half - 1 - s)) ≡ true → stored x ≡ x +ℤ pos s
  stored_lem x fit le =
      ground (arith, wrap-Fits half (x +ℤ pos s), +ℤ_parts x (pos s), eq_of_parts x (x +ℤ pos s))

  rebase_stored :
      (x : ℤ)
      → Fits half x
      → leb_ℤ x (pos (half - 1 - s)) ≡ true
      → rebase (int_ops half) (null_of half) (pos s) (x +ℤ pos s) ≡ x
  rebase_stored x fit le =
      let sum = +ℤ_parts x (pos s) in
      let back : x +ℤ pos s -ℤ pos s ≡ x =
        omega (arith, sum, -ℤ_parts (x +ℤ pos s) (pos s), eq_of_parts (x +ℤ pos s -ℤ pos s) x) in
      rebase_exact half s small (x +ℤ pos s) (ground (arith, sum)) ∙ rw back (ground arith)

  abbrev Tests : (ℤ → Bool) → Type 0
  Tests valid =
      (x : ℤ)
      → Fits half x
      → valid x ≡ (not (eqb_ℤ x (null_of half)) && leb_ℤ x (pos (half - 1 - s)))

  module _ (valid : ℤ → Bool) (tests : Tests valid) where
    row_back :
        (x : ℤ)
        → Fits half x
        → read_row
            (null_of half)
            (rebase (int_ops half) (null_of half) (pos s))
            (if valid x then some (stored x) else none)
          ≡ kept half s x
    row_back x fit = rw (tests x fit) (elim (Bool-cases (leb_ℤ x (pos (half - 1 - s)))) [
      | inl le ↦
          rw (le, stored_lem x fit le)
            (opened (eqb_ℤ x (null_of half))
              (λ e. sym (eq_of_parts x (null_of half) (ground arith))) le)
      | inr gt ↦ rw gt (closed (eqb_ℤ x (null_of half)))
    ])
      where
        opened :
            (b : Bool)
            → (b ≡ true → null_of half ≡ x)
            → leb_ℤ x (pos (half - 1 - s)) ≡ true
            → read_row
                (null_of half)
                (rebase (int_ops half) (null_of half) (pos s))
                (if not b && true then some (x +ℤ pos s) else none)
              ≡ x
        opened true e le = e refl
        opened false e le = rebase_stored x fit le

        closed :
            (b : Bool)
            → read_row
                (null_of half)
                (rebase (int_ops half) (null_of half) (pos s))
                (if not b && false then some (stored x) else none)
              ≡ null_of half
        closed true = refl
        closed false = refl

    rows_back :
        (xs : List ℤ)
        → AllFit half xs
        → map
            (read_row (null_of half) (rebase (int_ops half) (null_of half) (pos s)))
            (masked (map stored xs) (map valid xs))
          ≡ map (kept half s) xs
    rows_back [] fit = refl
    rows_back (x ∷ xs) (fit, rest) = ap₂ ◌∷◌ (row_back x fit) (rows_back xs rest)

    values_stored :
        (xs : List ℤ) → (col_prim (int_ops half) (pos s) valid xs).values ≡ map stored xs
    values_stored xs =
        ap (λ r. r.values) (col_prim_lem (int_ops half) (pos s) valid xs)
        ∙ cases (eqb_ℤ (pos s) (pos 0)) xs
      where
        cases :
            (b : Bool) (ys : List ℤ)
            → (if b then ys else map (λ x. wrap half (x +ℤ pos s)) ys)
              ≡ map (λ x. if b then x else wrap half (x +ℤ pos s)) ys
        cases true [] = refl
        cases true (y ∷ ys) = ap (◌∷◌ y) (cases true ys)
        cases false ys = refl

    nulls_stored :
        (xs : List ℤ) → (col_prim (int_ops half) (pos s) valid xs).nulls ≡ null_bits valid xs
    nulls_stored xs = ap (λ r. r.nulls) (col_prim_lem (int_ops half) (pos s) valid xs)

    rows_stored :
        (xs : List ℤ)
        → array_rows (col_prim (int_ops half) (pos s) valid xs)
          ≡ masked (map stored xs) (map valid xs)
    rows_stored xs =
        rw (values_stored xs, nulls_stored xs, length-map xs stored)
          (ap (masked (map stored xs)) (null_bits_lem valid xs).0)

    back :
        (xs : List ℤ) (a : PrimArray ℤ) (dst : List ℤ) (off : ℕ)
        → AllFit half xs
        → Stands (array_rows (col_prim (int_ops half) (pos s) valid xs)) a.values a.nulls
        → off + length xs ≤ length dst
        → fill_prim (int_ops half) (null_of half) (pos s) (some a) dst off
          ≡ ok (take off dst ++ (map (kept half s) xs ++ drop (off + length xs) dst))
    back xs a dst off fit stands room =
        let rows = array_rows (col_prim (int_ops half) (pos s) valid xs) in
        let same = rows_stored xs in
        let count : length rows ≡ length xs = rw same (length-masked xs) in
        fill_prim_rows (int_ops half) (null_of half) (pos s) a rows dst off stands
          (omega (arith, count))
        ∙ rw (count, same, rows_back xs fit)
      where
        length-masked : (ys : List ℤ) → length (masked (map stored ys) (map valid ys)) ≡ length ys
        length-masked [] = refl
        length-masked (y ∷ ys) = ap suc (length-masked ys)

  -- A column of dates or timestamps reads back as it was written, but for the values that the shift
  -- to the Unix epoch moves out of the type: those read as null. `a` is what the file gives back
  -- for the array that was written: it stands for the same rows.
  pub col_moments-fill_prim :
      (xs : List ℤ) (a : PrimArray ℤ) (dst : List ℤ) (off : ℕ)
      → AllFit half xs
      → Stands (array_rows (col_moments half s xs)) a.values a.nulls
      → off + length xs ≤ length dst
      → fill_prim (int_ops half) (null_of half) (pos s) (some a) dst off
        ≡ ok (take off dst ++ (map (kept half s) xs ++ drop (off + length xs) dst))
  unfolding col_moments is_valid_shifted
  col_moments-fill_prim = back (is_valid_shifted half s) (λ x fit. refl)

-- A column of integers, times or durations reads back as it was written, nulls included. `a` is
-- what the file gives back for the array that was written: it stands for the same rows.
pub col_ints-fill_prim :
    (half : ℕ) (xs : List ℤ) (a : PrimArray ℤ) (dst : List ℤ) (off : ℕ)
    → AllFit half xs
    → Stands (array_rows (col_ints half xs)) a.values a.nulls
    → off + length xs ≤ length dst
    → 0 < half
    → fill_prim (int_ops half) (null_of half) (pos 0) (some a) dst off
      ≡ ok (take off dst ++ (xs ++ drop (off + length xs) dst))
unfolding col_ints is_valid
col_ints-fill_prim half xs a dst off fit stands room positive =
    back half 0 positive (is_valid half) tests xs a dst off fit stands room
    ∙ ap (λ ys. ok (take off dst ++ (ys ++ drop (off + length xs) dst))) (all_kept xs fit)
  where
    all_small : (x : ℤ) → Fits half x → leb_ℤ x (pos (half - 1 - 0)) ≡ true
    all_small x fit = ground arith

    and_true : (b : Bool) → b ≡ (b && true)
    and_true true = refl
    and_true false = refl

    tests : Tests half 0 positive (is_valid half)
    tests x fit = rw (all_small x fit) (and_true (not (eqb_ℤ x (null_of half))))

    all_kept : (ys : List ℤ) → AllFit half ys → map (kept half 0) ys ≡ ys
    all_kept [] fit = refl
    all_kept (y ∷ ys) (fit, rest) = ap₂ ◌∷◌ (rw (all_small y fit)) (all_kept ys rest)
