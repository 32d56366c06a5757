-- ===== src/Read/Fill/Rows.antt =====
-- src/read.rs, `fill_prim` and `patch`: the Arrow path writes every row's own value, and the two
-- decode paths write the same host vector.
use parquet_interop.Prelude.{
  ℕ, suc, ◌+◌, ◌≤◌, ◌≡◌, refl, sym, ap, ◌∙◌, Bool, true, false, inl, inr, Option, none, some, List,
  [], ◌∷◌, ◌++◌, map, append_assoc, arith, if◌then◌else◌, length, length-snoc, length-map, set,
  take, drop, take-append_length, drop_prefix, drop-append_length, length-take_of_le, Bool-cases,
  ok,
}
use native.Mathlib.Nat.{add-zero}
use mathlib.Core.Path.{ap₂}
use parquet_interop.Native.{NativeOps}
use parquet_interop.Read.Nulls.{BitChunks}
use parquet_interop.Read.Nulls.Visit.{IsChunked, validity, at_nulls, each_null-eq-at_nulls}
use parquet_interop.Read.Patch.{rebase, shift, patch}
use parquet_interop.Read.Patch.Spread.{packed, Levels, row_value, patch_rows}
use parquet_interop.Read.Fill.{PrimArray, floor_shift, shift_rows, null_rows, fill_prim}

module _ {ℓ} {T : Type ℓ} where
  -- Values and validity bits that stand for `rows`; the value of a null row may be any.
  pub data Holds : List (Option T) → List T → List Bool → Type ℓ where
    end : Holds [] [] []
    null :
        {rows : List (Option T)} {xs : List T} {bs : List Bool} (x : T)
        → Holds rows xs bs
        → Holds (none ∷ rows) (x ∷ xs) (false ∷ bs)
    value :
        {rows : List (Option T)} {xs : List T} {bs : List Bool} (v : T)
        → Holds rows xs bs
        → Holds (some v ∷ rows) (v ∷ xs) (true ∷ bs)

  -- An array that stands for `rows`.
  abbrev pub Stands : List (Option T) → List T → Option BitChunks → Type ℓ
  Stands rows xs none = map some xs ≡ rows
  Stands rows xs (some bc) = IsChunked bc × Holds rows xs (validity bc)

  Holds-length :
      {rows : List (Option T)} {xs : List T} {bs : List Bool}
      → Holds rows xs bs
      → length rows ≡ length xs
  Holds-length end = refl
  Holds-length (null x h) = ap suc (Holds-length h)
  Holds-length (value v h) = ap suc (Holds-length h)

  pub Stands-length :
      (rows : List (Option T)) (xs : List T) (nulls : Option BitChunks)
      → Stands rows xs nulls
      → length rows ≡ length xs
  Stands-length rows xs none h = rw (← h) (length-map xs some)
  Stands-length rows xs (some bc) h = Holds-length h.1

  set_middle :
      (pre : List T) (x w : T) (xs : List T)
      → set (pre ++ (x ∷ xs)) (length pre) w ≡ pre ++ (w ∷ xs)
  set_middle [] x w xs = refl
  set_middle (y ∷ pre) x w xs = ap (◌∷◌ y) (set_middle pre x w xs)

module _ {ℓ κ} {A : Type κ} {T : Type ℓ} (nullv : T) (g : A → T) where
  -- What a row reads as, `g` being what happens to a value.
  abbrev pub read_row : Option A → T
  read_row none = nullv
  read_row (some v) = g v

  all_values : (xs : List A) → map g xs ≡ map read_row (map some xs)
  all_values [] = refl
  all_values (x ∷ xs) = ap (◌∷◌ (g x)) (all_values xs)

module _ {ℓ κ} {A : Type κ} {T : Type ℓ} (nullv : T) (off : ℕ) (g : A → T) where
  -- The null patch over shifted values puts a null at the null rows.
  patch_nulls :
      {rows : List (Option A)} {xs : List A} {bs : List Bool}
      → Holds rows xs bs
      → (i : ℕ) (pre post : List T) → length pre ≡ off + i
      → at_nulls (λ j d. set d (off + j) nullv) i bs (pre ++ (map g xs ++ post))
        ≡ pre ++ (map (read_row nullv g) rows ++ post)
  unfolding at_nulls
  patch_nulls end i pre post e = refl
  patch_nulls (null {rows} {xs} {bs} x h) i pre post e =
      rw (← e, set_middle)
        (ap (at_nulls (λ j d. set d (off + j) nullv) (i + 1) bs)
            (sym (append_assoc pre (nullv ∷ []) (map g xs ++ post)))
          ∙ patch_nulls h (i + 1) (pre ++ (nullv ∷ [])) post
              (length-snoc pre nullv ∙ ap suc e ∙ omega arith)
          ∙ append_assoc pre (nullv ∷ []) (map (read_row nullv g) rows ++ post))
  patch_nulls (value {rows} {xs} {bs} v h) i pre post e =
      ap (at_nulls (λ j d. set d (off + j) nullv) (i + 1) bs)
        (sym (append_assoc pre (g v ∷ []) (map g xs ++ post)))
      ∙ patch_nulls h (i + 1) (pre ++ (g v ∷ [])) post
          (length-snoc pre (g v) ∙ ap suc e ∙ omega arith)
      ∙ append_assoc pre (g v ∷ []) (map (read_row nullv g) rows ++ post)

module _ {ℓ κ} {A : Type κ} {T : Type ℓ} (nullv : T) where
  pub null_rows_lem :
      (nulls : Option BitChunks) (rows : List (Option A)) (g : A → T) (pre : List T) (xs : List A)
      (post : List T)
      → Stands rows xs nulls
      → null_rows nullv nulls (length pre) (pre ++ (map g xs ++ post))
        ≡ pre ++ (map (read_row nullv g) rows ++ post)
  unfolding null_rows
  null_rows_lem none rows g pre xs post h =
      rw (← h) (ap (λ ys. pre ++ (ys ++ post)) (all_values nullv g xs))
  null_rows_lem (some bc) rows g pre xs post (chunked, holds) =
      each_null-eq-at_nulls _ bc _ chunked
      ∙ patch_nulls nullv (length pre) g holds 0 pre post (sym (add-zero _))

module _ {ℓ} {T : Type ℓ} (o : NativeOps T) (nullv sh : T) where
  rebase_still : o.is_zero sh ≡ true → (xs : List T) → map (rebase o nullv sh) xs ≡ xs
  unfolding rebase
  rebase_still still [] = refl
  rebase_still still (x ∷ xs) = ground (arith, rebase_still still xs)

  rebase_moves :
      o.is_zero sh ≡ false
      → (xs : List T) → map (floor_shift o nullv sh) xs ≡ map (rebase o nullv sh) xs
  unfolding rebase
  rebase_moves moves [] = refl
  rebase_moves moves (x ∷ xs) = ground (arith, rebase_moves moves xs)

  shift_rows_lem :
      (pre xs post : List T)
      → shift_rows o nullv sh (length pre) (length xs) (pre ++ (xs ++ post))
        ≡ pre ++ (map (rebase o nullv sh) xs ++ post)
  unfolding shift_rows
  shift_rows_lem pre xs post = elim (Bool-cases (o.is_zero sh)) [
    | inl still ↦ rw (still, shift_rows, rebase_still still xs)
    | inr moves ↦ rw (
      moves,
      shift_rows,
      take-append_length,
      drop_prefix,
      take-append_length,
      drop-append_length,
      drop_prefix,
      rebase_moves moves xs,
    )
  ]

  -- `fill_prim` gives every row of the batch its own value: null for a null row, and else the value
  -- moved to the host's epoch. The rows before and behind the batch keep what they held.
  pub fill_prim_rows :
      (a : PrimArray T) (rows : List (Option T)) (dst : List T) (off : ℕ)
      → Stands rows a.values a.nulls
      → off + length rows ≤ length dst
      → fill_prim o nullv sh (some a) dst off
        ≡ ok (
            take off dst
            ++ (map (read_row nullv (rebase o nullv sh)) rows ++ drop (off + length rows) dst))
  unfolding fill_prim
  fill_prim_rows a rows dst off stands fit =
      let pre = take off dst in
      let post = drop (off + length a.values) dst in
      let here : length pre ≡ off = length-take_of_le off dst (omega arith) in
      let count = Stands-length rows a.values a.nulls stands in
      ap ok (
        ap
          (λ k.
            null_rows nullv a.nulls k
              (shift_rows o nullv sh k (length a.values) (pre ++ (a.values ++ post))))
          (sym here)
        ∙ ap (null_rows nullv a.nulls (length pre)) (shift_rows_lem pre a.values post)
        ∙ null_rows_lem nullv a.nulls rows (rebase o nullv sh) pre a.values post stands
        ∙ ap (λ n. pre ++ (map (read_row nullv (rebase o nullv sh)) rows ++ drop (off + n) dst))
            (sym count))

  module _ (mul : T) where
    -- What the cast to nanoseconds does to a row: null where the product overflows.
    abbrev pub SafeCast : (Option T → Option T) → Type ℓ
    SafeCast cast =
        (cast none ≡ none)
        × ((v : T) → cast (some v) ≡ (if o.is_eq mul o.one then some v else o.mul_checked v mul))

    cast_row :
        (cast : Option T → Option T)
        → SafeCast cast
        → (r : Option T) → read_row nullv (rebase o nullv sh) (cast r) ≡ row_value o nullv sh mul r
    unfolding shift
    cast_row cast h none = rw (h.0)
    cast_row cast h (some v) =
        rw (h.1 v) (opened (if o.is_eq mul o.one then some v else o.mul_checked v mul))
      where
        opened :
            (r : Option T)
            → read_row nullv (rebase o nullv sh) r
              ≡ elim r [ none ↦ nullv | some w ↦ rebase o nullv sh w ]
        opened none = refl
        opened (some w) = refl

    cast_rows :
        (cast : Option T → Option T)
        → SafeCast cast
        → (rows : List (Option T))
        → map (read_row nullv (rebase o nullv sh)) (map cast rows)
          ≡ map (row_value o nullv sh mul) rows
    cast_rows cast h [] = refl
    cast_rows cast h (r ∷ rows) = ap₂ ◌∷◌ (cast_row cast h r) (cast_rows cast h rows)

    -- The two decode paths agree element for element: on the packed values of a column and its
    -- definition levels `patch` leaves the rows that `fill_prim` writes from the array that the
    -- cast to nanoseconds makes of the same column.
    pub patch-eq-fill_prim :
        (cast : Option T → Option T) (rows : List (Option T)) (a : PrimArray T) (maxdef : ℕ)
        (dl : List ℕ) (d dst : List T) (off : ℕ)
        → SafeCast cast
        → Stands (map cast rows) a.values a.nulls
        → off + length rows ≤ length dst
        → Levels maxdef rows dl
        → length rows ≤ length d
        → take (length (packed rows)) d ≡ packed rows
        → drop (length rows) d ≡ drop (off + length rows) dst
        → (written : List T) × (patch o nullv sh mul d
              (length rows)
              (length (packed rows))
              (some dl)
              maxdef
            ≡ some written)
          × (fill_prim o nullv sh (some a) dst off ≡ ok (take off dst ++ written))
    patch-eq-fill_prim cast rows a maxdef dl d dst off safe stands fit levels room front rest = (
      map (row_value o nullv sh mul) rows ++ drop (length rows) d,
      patch_rows o nullv sh mul maxdef rows dl d levels room front,
      fill_prim_rows a (map cast rows) dst off stands (rw (length-map rows cast) fit)
          ∙ rw (length-map rows cast, cast_rows cast safe rows, rest),
    )
