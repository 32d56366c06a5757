-- ===== src/Read/Window/Loop.antt =====
-- src/read.rs, `read`: its loop over the files and their row groups as one pass over the global
-- numbering.
use native.Mathlib.Nat.{mod-eq_of_lt}
use parquet_interop.Prelude.{
  ℕ, zero, suc, ◌+◌, ◌-◌, ◌%◌, ◌^◌, ◌≤◌, ◌<◌, ◌≡◌, refl, sym, ap, ◌∙◌, true, false, ◌&&◌, inl, inr,
  List, [], ◌∷◌, ◌++◌, map, append-nil, append_assoc, arith, ltb, leb, if◌then◌else◌, take,
  take-length, drop, Bool-cases,
}
use parquet_interop.Prelude.Int.{ℤ, pos, negsuc}
use parquet_interop.Read.Window.{Rg, Window, window_group, window_file, window_files, window}

-- A row group of the set: its file, its number in the file, its row count.
abbrev pub Group : Type 0
Group = ℕ × ℕ × ℤ

-- The row groups of a set in the global numbering.
abbrev pub file_groups : ℕ → ℕ → List ℤ → List Group
file_groups f i [] = []
file_groups f i (r ∷ rs) = (f, i, r) ∷ file_groups f (i + 1) rs

abbrev pub groups : ℕ → List (List ℤ) → List Group
groups f [] = []
groups f (s ∷ ss) = file_groups f 0 s ++ groups (f + 1) ss

-- Those with rows.
abbrev pub with_rows : List Group → List (ℕ × ℕ × ℕ)
with_rows [] = []
with_rows ((f, i, negsuc n) ∷ gs) = with_rows gs
with_rows ((f, i, pos zero) ∷ gs) = with_rows gs
with_rows ((f, i, pos (suc n)) ∷ gs) = (f, i, suc n) ∷ with_rows gs

-- The row groups `[g0, g1)` that have rows.
abbrev pub chosen : List (List ℤ) → ℕ → ℕ → List (ℕ × ℕ × ℕ)
chosen srcs g0 g1 = with_rows (take (g1 - g0) (drop g0 (groups 0 srcs)))

abbrev pub row_count : List (ℕ × ℕ × ℕ) → ℕ
row_count [] = 0
row_count ((f, i, n) ∷ gs) = n + row_count gs

-- Laid out end to end from row `off` on.
abbrev pub laid : ℕ → List (ℕ × ℕ × ℕ) → List Rg
laid off [] = []
laid off ((f, i, n) ∷ gs) = record { file = f; group = i; off = off; rows = n } ∷ laid (off + n) gs

-- The same with the wrap of a usize.
pub laid_wrap : ℕ → List (ℕ × ℕ × ℕ) → List Rg
laid_wrap off [] = []
laid_wrap off ((f, i, n) ∷ gs) =
    record { file = f; group = i; off = off; rows = n } ∷ laid_wrap ((off + n) % 2 ^ 64) gs

pub total_wrap : ℕ → List (ℕ × ℕ × ℕ) → ℕ
total_wrap off [] = off
total_wrap off ((f, i, n) ∷ gs) = total_wrap ((off + n) % 2 ^ 64) gs

pub laid_no_wrap :
    (off : ℕ) (gs : List (ℕ × ℕ × ℕ))
    → off + row_count gs < 2 ^ 64
    → (laid_wrap off gs ≡ laid off gs) × (total_wrap off gs ≡ off + row_count gs)
unfolding laid_wrap total_wrap
laid_no_wrap off [] h = (refl, omega arith)
laid_no_wrap off ((f, i, n) ∷ gs) h =
    let small : (off + n) % 2 ^ 64 ≡ off + n = mod-eq_of_lt (omega arith) in
    let (same, total) = laid_no_wrap (off + n) gs (omega arith) in
    rw small
      (ap (◌∷◌ (record { file = f; group = i; off = off; rows = n })) same, total ∙ omega arith)

module _ (g0 g1 : ℕ) where
  -- The loop over the global numbering.
  fold : List Group → Window → Window
  fold [] w = w
  fold ((f, i, r) ∷ gs) w = fold gs (window_group g0 g1 f i r w)

  fold-append : (gs hs : List Group) (w : Window) → fold (gs ++ hs) w ≡ fold hs (fold gs w)
  unfolding fold
  fold-append [] hs w = refl
  fold-append ((f, i, r) ∷ gs) hs w = fold-append gs hs (window_group g0 g1 f i r w)

  window_file-fold :
      (f i : ℕ) (rs : List ℤ) (w : Window)
      → window_file g0 g1 f i rs w ≡ fold (file_groups f i rs) w
  unfolding fold window_file
  window_file-fold f i [] w = refl
  window_file-fold f i (r ∷ rs) w = window_file-fold f (i + 1) rs (window_group g0 g1 f i r w)

  window_files-fold :
      (f : ℕ) (ss : List (List ℤ)) (w : Window) → window_files g0 g1 f ss w ≡ fold (groups f ss) w
  unfolding fold window_files
  window_files-fold f [] w = refl
  window_files-fold f (s ∷ ss) w =
      ap (window_files g0 g1 (f + 1) ss) (window_file-fold f 0 s w)
      ∙ window_files-fold (f + 1) ss (fold (file_groups f 0 s) w)
      ∙ sym (fold-append (file_groups f 0 s) (groups (f + 1) ss) w)

  -- The groups from number `m` on that are in the window.
  in_window : ℕ → List Group → List Group
  in_window m [] = []
  in_window m (x ∷ xs) =
      if leb g0 m && ltb m g1 then x ∷ in_window (m + 1) xs else in_window (m + 1) xs

  in_window-take : (m : ℕ) (gs : List Group) → g0 ≤ m → in_window m gs ≡ take (g1 - m) gs
  unfolding in_window
  in_window-take m [] h = sym (take-length [] (g1 - m) (omega arith))
  in_window-take m (x ∷ xs) h = elim (Bool-cases (ltb m g1)) [
    | inl before ↦
        let guard : (leb g0 m && ltb m g1) ≡ true = ground arith in
        let left : g1 - m ≡ suc (g1 - (m + 1)) = ground arith in
        rw (guard, left) (ap (◌∷◌ x) (in_window-take (m + 1) xs (omega arith)))
    | inr behind ↦
        let guard : (leb g0 m && ltb m g1) ≡ false = ground arith in
        let left : g1 - m ≡ 0 = ground arith in
        let next : g1 - (m + 1) ≡ 0 = ground arith in
        let rest = in_window-take (m + 1) xs (omega arith) in rw (guard, left) (rest ∙ rw next)
  ]

  in_window-slice :
      (m : ℕ) (gs : List Group) → m ≤ g0 → in_window m gs ≡ take (g1 - g0) (drop (g0 - m) gs)
  unfolding in_window
  in_window-slice m [] h = rw (drop_nil (g0 - m)) (sym (take-length [] (g1 - g0) (omega arith)))
    where
      drop_nil : (n : ℕ) → drop {A = Group} n [] ≡ []
      drop_nil zero = refl
      drop_nil (suc n) = refl
  in_window-slice m (x ∷ xs) h = elim (Bool-cases (ltb m g0)) [
    | inl before ↦
        let guard : (leb g0 m && ltb m g1) ≡ false = ground arith in
        let left : g0 - m ≡ suc (g0 - (m + 1)) = ground arith in
        rw (guard, left) (in_window-slice (m + 1) xs (ground arith))
    | inr here ↦
        let same : m ≡ g0 = ground arith in
        let left : g0 - m ≡ 0 = omega arith in
        rw left (in_window-take m (x ∷ xs) (omega arith) ∙ rw same)
  ]

  fold_lem :
      (gs : List Group) (w : Window)
      → ((fold gs w).rgs ≡ w.rgs ++ laid_wrap w.total (with_rows (in_window w.number gs)))
        × ((fold gs w).total ≡ total_wrap w.total (with_rows (in_window w.number gs)))
  unfolding fold laid_wrap total_wrap in_window window_group
  fold_lem [] w = (sym (append-nil w.rgs), refl)
  fold_lem ((f, i, negsuc n) ∷ gs) w =
      ground (arith, fold_lem gs (record w { number = w.number + 1 }))
  fold_lem ((f, i, pos zero) ∷ gs) w =
      ground (arith, fold_lem gs (record w { number = w.number + 1 }))
  fold_lem ((f, i, pos (suc n)) ∷ gs) w =
      let skip = fold_lem gs (record w { number = w.number + 1 }) in
      let rg : Rg = record { file = f; group = i; off = w.total; rows = suc n } in
      let next = fold_lem gs (record {
        rgs = w.rgs ++ (rg ∷ []);
        total = (w.total + suc n) % 2 ^ 64;
        number = w.number + 1;
      }) in
      let assoc =
        append_assoc w.rgs (rg ∷ [])
          (laid_wrap ((w.total + suc n) % 2 ^ 64) (with_rows (in_window (w.number + 1) gs))) in
      ground (arith, skip, next, assoc)

pub window_wrap :
    (srcs : List (List ℤ)) (g0 g1 : ℕ)
    → ((window srcs g0 g1).rgs ≡ laid_wrap 0 (chosen srcs g0 g1))
      × ((window srcs g0 g1).total ≡ total_wrap 0 (chosen srcs g0 g1))
unfolding window
window_wrap srcs g0 g1 =
    let start : Window = record { rgs = []; total = 0; number = 0 } in
    let slice : in_window g0 g1 0 (groups 0 srcs) ≡ take (g1 - g0) (drop g0 (groups 0 srcs)) =
      in_window-slice g0 g1 0 (groups 0 srcs) (omega arith)
      ∙ ap (λ n. take (g1 - g0) (drop n (groups 0 srcs))) (omega arith) in
    let (rgs, total) = fold_lem g0 g1 (groups 0 srcs) start in
    let run = window_files-fold g0 g1 0 srcs start in
    (
      ap (λ w. w.rgs) run ∙ rgs ∙ ap (λ gs. laid_wrap 0 (with_rows gs)) slice,
      ap (λ w. w.total) run ∙ total ∙ ap (λ gs. total_wrap 0 (with_rows gs)) slice,
    )

-- Which row group it is, without where it lands.
abbrev pub place : Rg → ℕ × ℕ × ℕ
place rg = (rg.file, rg.group, rg.rows)

pub place-laid_wrap : (off : ℕ) (gs : List (ℕ × ℕ × ℕ)) → map place (laid_wrap off gs) ≡ gs
unfolding laid_wrap
place-laid_wrap off [] = refl
place-laid_wrap off ((f, i, n) ∷ gs) = ap (◌∷◌ (f, i, n)) (place-laid_wrap ((off + n) % 2 ^ 64) gs)
