-- ===== src/Meta/Stats/Columns.antt =====
-- src/meta.rs, `stats_of`: each row group's bound stands at its global number, in its own file's
-- type.
use native.Mathlib.Nat.{add-zero}
use mathlib.Core.Path.{ap₂}
use parquet_interop.Prelude.{
  ℕ, ◌+◌, ◌≤◌, ◌≡◌, refl, sym, ap, ◌∙◌, Bool, true, false, Option, none, some, List, [], ◌∷◌, ◌++◌,
  map, arith, length, length-set, set, take, drop, take-append-drop, set_step, drop-length,
  append-nil,
}
use parquet_interop.Types.{DataType}
use parquet_interop.Meta.Stats.{
  Elements, Cell, Statistics, null_cell, put, put_null, stat_cell, put_stat, put_bounds,
  file_bounds, set_bounds,
}
use parquet_interop.Meta.Stats.Bounds.{set_twice}

module _ (e : Elements) (lt : ℕ) where
  -- The row groups of a set in the global numbering: the column's type in the file, and its
  -- statistics if the footer has any.
  abbrev pub Stat : Type 0
  Stat = DataType × Option (Statistics e)

  abbrev pub file_stats : DataType → List (Option (Statistics e)) → List Stat
  file_stats dt sts = map (λ st. (dt, st)) sts

  abbrev pub set_stats : List (DataType × List (Option (Statistics e))) → List Stat
  set_stats [] = []
  set_stats ((dt, sts) ∷ files) = file_stats dt sts ++ set_stats files

  -- The bound of a row group, `c` being the null.
  abbrev pub or_cell : Cell e → Option (Cell e) → Cell e
  or_cell c none = c
  or_cell c (some d) = d

  abbrev pub bound : Cell e → Bool → Stat → Cell e
  bound c hi (dt, none) = c
  bound c hi (dt, some st) = or_cell c (stat_cell e lt dt st hi)

  module _ (c : Cell e) (null : null_cell e lt ≡ some c) where
    put_over :
        (dt : DataType) (st : Statistics e) (hi : Bool) (col : List (Cell e)) (g : ℕ)
        → put_stat e lt dt (put_null e lt col g) g st hi ≡ set col g (bound c hi (dt, some st))
    unfolding put_stat put_null
    put_over dt st hi col g = rw null (over (stat_cell e lt dt st hi))
      where
        over : (r : Option (Cell e)) → put e r (set col g c) g ≡ set col g (or_cell c r)
        over none = refl
        over (some d) = set_twice col g c d

    put_bounds_lem :
        (dt : DataType) (g : ℕ) (st : Option (Statistics e)) (mn mx : List (Cell e))
        → put_bounds e lt dt g st (mn, mx)
          ≡ (set mn g (bound c false (dt, st)), set mx g (bound c true (dt, st)))
    unfolding put_bounds put_null
    put_bounds_lem dt g none mn mx = rw null refl
    put_bounds_lem dt g (some st) mn mx =
        ap₂ (λ a b. (a, b)) (put_over dt st false mn g) (put_over dt st true mx g)

    -- One pass over the global numbering.
    walk : ℕ → List Stat → List (Cell e) × List (Cell e) → ℕ × (List (Cell e) × List (Cell e))
    walk g [] cols = (g, cols)
    walk g ((dt, st) ∷ sts) cols = walk (g + 1) sts (put_bounds e lt dt g st cols)

    walk-append :
        (g : ℕ) (xs ys : List Stat) (cols : List (Cell e) × List (Cell e))
        → walk g (xs ++ ys) cols ≡ walk (walk g xs cols).0 ys (walk g xs cols).1
    unfolding walk
    walk-append g [] ys cols = refl
    walk-append g ((dt, st) ∷ xs) ys cols = walk-append (g + 1) xs ys (put_bounds e lt dt g st cols)

    file_bounds-walk :
        (dt : DataType) (g : ℕ) (sts : List (Option (Statistics e)))
        (cols : List (Cell e) × List (Cell e))
        → file_bounds e lt dt g sts cols ≡ walk g (file_stats dt sts) cols
    unfolding walk file_bounds
    file_bounds-walk dt g [] cols = refl
    file_bounds-walk dt g (st ∷ sts) cols =
        file_bounds-walk dt (g + 1) sts (put_bounds e lt dt g st cols)

    set_bounds-walk :
        (files : List (DataType × List (Option (Statistics e)))) (g : ℕ)
        (cols : List (Cell e) × List (Cell e))
        → set_bounds e lt files (g, cols) ≡ (walk g (set_stats files) cols).1
    unfolding walk set_bounds
    set_bounds-walk [] g cols = refl
    set_bounds-walk ((dt, sts) ∷ files) g cols =
        ap (set_bounds e lt files) (file_bounds-walk dt g sts cols)
        ∙ set_bounds-walk files _ _
        ∙ ap (λ r. r.1) (sym (walk-append g (file_stats dt sts) (set_stats files) cols))

    walk_lem :
        (sts : List Stat) (g : ℕ) (mn mx : List (Cell e))
        → g + length sts ≤ length mn
        → g + length sts ≤ length mx
        → (walk g sts (mn, mx)).1 ≡ (
          take g mn ++ (map (bound c false) sts ++ drop (g + length sts) mn),
          take g mx ++ (map (bound c true) sts ++ drop (g + length sts) mx),
        )
    unfolding walk
    walk_lem [] g mn mx hn hx =
        rw add-zero
          (ap₂ (λ a b. (a, b)) (sym (take-append-drop g mn)) (sym (take-append-drop g mx)))
    walk_lem ((dt, st) ∷ sts) g mn mx hn hx =
        let lo = bound c false (dt, st) in
        let hi = bound c true (dt, st) in
        ap (λ cols. (walk (g + 1) sts cols).1) (put_bounds_lem dt g st mn mx)
        ∙ walk_lem sts (g + 1) (set mn g lo) (set mx g hi) (omega (arith, length-set mn g lo))
            (omega (arith, length-set mx g hi))
        ∙ ap₂ (λ a b. (a, b))
            (set_step mn g (length sts) lo (map (bound c false) sts) (omega arith))
            (set_step mx g (length sts) hi (map (bound c true) sts) (omega arith))

    -- The bound vectors of a column hold, for every row group of the set in the global numbering,
    -- the bound that its footer states, read with the type that the column has in its own file, and
    -- the column's null where there is no usable one. The vectors are as long as there are row
    -- groups, and the column has a host type.
    pub set_bounds_lem :
        (files : List (DataType × List (Option (Statistics e)))) (mn mx : List (Cell e))
        → length mn ≡ length (set_stats files)
        → length mx ≡ length (set_stats files)
        → set_bounds e lt files (0, (mn, mx))
          ≡ (map (bound c false) (set_stats files), map (bound c true) (set_stats files))
    set_bounds_lem files mn mx hn hx =
        set_bounds-walk files 0 (mn, mx)
        ∙ walk_lem (set_stats files) 0 mn mx (omega arith) (omega arith)
        ∙ ap₂ (λ a b. (a, b)) (all mn (map (bound c false) (set_stats files)) hn)
            (all mx (map (bound c true) (set_stats files)) hx)
      where
        all :
            (col cells : List (Cell e))
            → length col ≡ length (set_stats files)
            → cells ++ drop (0 + length (set_stats files)) col ≡ cells
        all col cells h =
            ap (λ ys. cells ++ ys) (drop-length col (0 + length (set_stats files)) (omega arith))
            ∙ append-nil cells
