-- ===== src/Read/Window/Layout.antt =====
-- src/read.rs, `read`: the window takes the row groups `[g0, g1)` of the global numbering and lays
-- them out end to end.
use native.Mathlib.Nat.{zero-add, suc-add}
use parquet_interop.Prelude.{
  ℕ, zero, suc, ◌+◌, ◌-◌, ◌^◌, ◌≤◌, ◌<◌, ◌≡◌, refl, sym, ap, ◌∙◌, List, [], ◌∷◌, ◌++◌, map, arith,
  take, take-length, drop, drop-drop,
}
use parquet_interop.Prelude.Int.{ℤ, pos, negsuc}
use parquet_interop.Mru.Laws.{All, Pairwise}
use parquet_interop.Read.Window.{Rg, window}
use parquet_interop.Read.Window.Loop.{
  Group, groups, with_rows, chosen, row_count, laid, laid_no_wrap, window_wrap, place,
  place-laid_wrap,
}

-- The window is the row groups `[g0, g1)` of the global numbering that have rows, laid out end to
-- end, and its total is their row count: as long as the row counts fit a usize together.
pub window-laid :
    (srcs : List (List ℤ)) (g0 g1 : ℕ)
    → row_count (chosen srcs g0 g1) < 2 ^ 64
    → ((window srcs g0 g1).rgs ≡ laid 0 (chosen srcs g0 g1))
      × ((window srcs g0 g1).total ≡ row_count (chosen srcs g0 g1))
window-laid srcs g0 g1 fit =
    let (rgs, total) = window_wrap srcs g0 g1 in
    let (same, count) = laid_no_wrap 0 (chosen srcs g0 g1) (omega arith) in
    (rgs ∙ same, total ∙ count ∙ omega arith)

-- `a` ends where `b` starts or before.
abbrev pub Before : Rg → Rg → Type 0
Before a b = a.off + a.rows ≤ b.off

-- Rows, and all below row `n`.
abbrev pub Inside : ℕ → Rg → Type 0
Inside n a = (0 < a.rows) × (a.off + a.rows ≤ n)

laid-Before :
    (off : ℕ) (rg : Rg) (gs : List (ℕ × ℕ × ℕ))
    → rg.off + rg.rows ≤ off
    → All (Before rg) (laid off gs)
laid-Before off rg [] h = tt
laid-Before off rg ((f, i, n) ∷ gs) h = (h, laid-Before (off + n) rg gs (omega arith))

laid-disjoint : (off : ℕ) (gs : List (ℕ × ℕ × ℕ)) → Pairwise Before (laid off gs)
laid-disjoint off [] = tt
laid-disjoint off ((f, i, n) ∷ gs) = (
  laid-Before (off + n) (record { file = f; group = i; off = off; rows = n }) gs (omega arith),
  laid-disjoint (off + n) gs,
)

laid-Inside :
    (off n : ℕ) (gs : List Group)
    → off + row_count (with_rows gs) ≤ n
    → All (Inside n) (laid off (with_rows gs))
laid-Inside off n [] h = tt
laid-Inside off n ((f, i, negsuc k) ∷ gs) h = laid-Inside off n gs h
laid-Inside off n ((f, i, pos zero) ∷ gs) h = laid-Inside off n gs h
laid-Inside off n ((f, i, pos (suc k)) ∷ gs) h =
    ((omega arith, omega arith), laid-Inside (off + suc k) n gs (omega arith))

-- The row ranges of a window follow one another without overlap, and each is a part of the result's
-- rows: as long as the row counts fit a usize together.
pub window-disjoint :
    (srcs : List (List ℤ)) (g0 g1 : ℕ)
    → row_count (chosen srcs g0 g1) < 2 ^ 64
    → Pairwise Before (window srcs g0 g1).rgs
      × All (Inside (window srcs g0 g1).total) (window srcs g0 g1).rgs
window-disjoint srcs g0 g1 fit =
    let (rgs, total) = window-laid srcs g0 g1 fit in
    rw (rgs, total)
      (
        laid-disjoint 0 (chosen srcs g0 g1),
        laid-Inside 0 _ (take (g1 - g0) (drop g0 (groups 0 srcs))) (omega arith),
      )

with_rows-append : (gs hs : List Group) → with_rows (gs ++ hs) ≡ with_rows gs ++ with_rows hs
with_rows-append [] hs = refl
with_rows-append ((f, i, negsuc k) ∷ gs) hs = with_rows-append gs hs
with_rows-append ((f, i, pos zero) ∷ gs) hs = with_rows-append gs hs
with_rows-append ((f, i, pos (suc k)) ∷ gs) hs = ap (◌∷◌ (f, i, suc k)) (with_rows-append gs hs)

take-add : (a b : ℕ) (gs : List Group) → take (a + b) gs ≡ take a gs ++ take b (drop a gs)
take-add zero b gs = rw zero-add
take-add (suc a) b [] =
    take-length [] (suc a + b) (omega arith) ∙ sym (take-length [] b (omega arith))
take-add (suc a) b (x ∷ gs) = rw suc-add (ap (◌∷◌ x) (take-add a b gs))

-- Two windows that meet read, one after the other, the row groups of the window over both.
pub window-append :
    (srcs : List (List ℤ)) (g0 g1 g2 : ℕ)
    → g0 ≤ g1
    → g1 ≤ g2
    → map place (window srcs g0 g2).rgs
      ≡ map place (window srcs g0 g1).rgs ++ map place (window srcs g1 g2).rgs
window-append srcs g0 g1 g2 h01 h12 =
    let gs = groups 0 srcs in
    let placed : (a b : ℕ) → map place (window srcs a b).rgs ≡ chosen srcs a b =
      λ a b. ap (map place) (window_wrap srcs a b).0 ∙ place-laid_wrap 0 (chosen srcs a b) in
    let both : g2 - g0 ≡ (g1 - g0) + (g2 - g1) = omega arith in
    let middle : g0 + (g1 - g0) ≡ g1 = omega arith in
    rw (placed g0 g2, placed g0 g1, placed g1 g2)
      (ap (λ n. with_rows (take n (drop g0 gs))) both
        ∙ ap with_rows (take-add (g1 - g0) (g2 - g1) (drop g0 gs))
        ∙ with_rows-append (take (g1 - g0) (drop g0 gs))
            (take (g2 - g1) (drop (g1 - g0) (drop g0 gs)))
        ∙ ap (λ hs. chosen srcs g0 g1 ++ with_rows (take (g2 - g1) hs))
            (drop-drop gs g0 (g1 - g0) ∙ ap (λ n. drop n gs) middle))
