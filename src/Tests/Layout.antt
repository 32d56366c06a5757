-- ===== src/Tests/Layout.antt =====
-- src/read.rs: the layout of a read of two small files.
use parquet_interop.Prelude.{ℕ, ◌≡◌, refl, Option, none, some, List, [], ◌∷◌, ◌++◌, map, arith}
use parquet_interop.Prelude.Int.{ℤ, pos}
use parquet_interop.Mru.Laws.{All, Pairwise}
use parquet_interop.Read.Window.{window, tasks}
use parquet_interop.Read.Window.Loop.{place}
use parquet_interop.Read.Window.Layout.{Before, Inside, window-laid, window-disjoint, window-append}
use parquet_interop.Read.Window.Tasks.{Apart, tasks-disjoint}

-- The row counts of two files; the second has an empty row group.
abbrev counts : List (List ℤ)
counts = (pos 3 ∷ pos 4 ∷ []) ∷ (pos 0 ∷ pos 5 ∷ []) ∷ []

window-laid_example :
    ((window counts 1 4).rgs
      ≡ record { file = 0; group = 1; off = 0; rows = 4 }
        ∷ record { file = 1; group = 1; off = 4; rows = 5 }
        ∷ [])
    × ((window counts 1 4).total ≡ 9)
window-laid_example = window-laid counts 1 4 (omega arith)

window-disjoint_example :
    Pairwise Before (window counts 1 4).rgs
    × All (Inside (window counts 1 4).total) (window counts 1 4).rgs
window-disjoint_example = window-disjoint counts 1 4 (omega arith)

windows_joined :
    map place (window counts 0 4).rgs
    ≡ map place (window counts 0 2).rgs ++ map place (window counts 2 4).rgs
windows_joined = window-append counts 0 2 4 (omega arith) (omega arith)

tasks-disjoint_example : Pairwise Apart (tasks (window counts 0 4).rgs 2)
tasks-disjoint_example = tasks-disjoint 2 counts 0 4 (omega arith)

-- Four result columns, the second zero-copy, in another order than the file's.
abbrev out : List ℕ
out = 6 ∷ 2 ∷ 4 ∷ 0 ∷ []

abbrev raw : List (Option ℕ)
raw = none ∷ some 8 ∷ none ∷ none ∷ []

window_run : (window counts 0 2).total ≡ 7
unfolding window
window_run = refl
