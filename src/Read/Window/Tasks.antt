-- ===== src/Read/Window/Tasks.antt =====
-- src/read.rs, `read` and `decode`: no two tasks write the same rows of the same part.
use parquet_interop.Prelude.{
  ℕ, zero, suc, ◌+◌, ◌<◌, ◌^◌, ◌≡◌, refl, inl, inr, ◌⊎◌, List, [], ◌∷◌, ◌++◌, arith,
}
use parquet_interop.Prelude.Int.{ℤ}
use parquet_interop.Mru.Laws.{All, All-append, Pairwise}
use parquet_interop.Read.Window.{Rg, Task, tasks_of, tasks, window}
use parquet_interop.Read.Window.Loop.{chosen, row_count}
use parquet_interop.Read.Window.Layout.{Before, window-disjoint}

-- Two tasks are of different rows, or of different parts of the same rows.
abbrev pub Apart : Task → Task → Type 0
Apart a b = Before a.rg b.rg ⊎ ((a.rg ≡ b.rg) × (a.part < b.part))

Pairwise-append {ℓ κ} :
    {A : Type ℓ} (R : A → A → Type κ) (xs ys : List A)
    → Pairwise R xs
    → Pairwise R ys
    → All (λ x. All (R x) ys) xs
    → Pairwise R (xs ++ ys)
Pairwise-append R [] ys hx hy h = hy
Pairwise-append R (x ∷ xs) ys hx hy h =
    (All-append (R x) xs ys hx.0 h.0, Pairwise-append R xs ys hx.1 hy h.1)

module _ (n : ℕ) where
  later_parts :
      (rg : Rg) (p q todo : ℕ)
      → p < q
      → All (Apart (record { rg = rg; part = p })) (tasks_of rg q todo)
  later_parts rg p q zero h = tt
  later_parts rg p q (suc todo) h = (inr (refl, h), later_parts rg p (q + 1) todo (omega arith))

  one_group : (rg : Rg) (p todo : ℕ) → Pairwise Apart (tasks_of rg p todo)
  one_group rg p zero = tt
  one_group rg p (suc todo) =
      (later_parts rg p (p + 1) todo (omega arith), one_group rg (p + 1) todo)

  later_group :
      (t : Task) (rg : Rg) (p todo : ℕ) → Before t.rg rg → All (Apart t) (tasks_of rg p todo)
  later_group t rg p zero h = tt
  later_group t rg p (suc todo) h = (inl h, later_group t rg (p + 1) todo h)

  later_groups : (t : Task) (rgs : List Rg) → All (Before t.rg) rgs → All (Apart t) (tasks rgs n)
  unfolding tasks
  later_groups t [] h = tt
  later_groups t (rg ∷ rgs) h =
      All-append (Apart t) (tasks_of rg 0 n) (tasks rgs n) (later_group t rg 0 n h.0)
        (later_groups t rgs h.1)

  each_later :
      (rg : Rg) (rgs : List Rg) (p todo : ℕ)
      → All (Before rg) rgs
      → All (λ t. All (Apart t) (tasks rgs n)) (tasks_of rg p todo)
  each_later rg rgs p zero h = tt
  each_later rg rgs p (suc todo) h =
      (later_groups (record { rg = rg; part = p }) rgs h, each_later rg rgs (p + 1) todo h)

  tasks-Apart : (rgs : List Rg) → Pairwise Before rgs → Pairwise Apart (tasks rgs n)
  unfolding tasks
  tasks-Apart [] h = tt
  tasks-Apart (rg ∷ rgs) h =
      Pairwise-append Apart (tasks_of rg 0 n) (tasks rgs n) (one_group rg 0 n) (tasks-Apart rgs h.1)
        (each_later rg rgs 0 n h.0)

  -- The tasks of a window write no row of a part twice: any two are of row ranges that do not
  -- overlap, or of different parts of one range. The row counts have to fit a usize together.
  pub tasks-disjoint :
      (srcs : List (List ℤ)) (g0 g1 : ℕ)
      → row_count (chosen srcs g0 g1) < 2 ^ 64
      → Pairwise Apart (tasks (window srcs g0 g1).rgs n)
  tasks-disjoint srcs g0 g1 fit =
      tasks-Apart (window srcs g0 g1).rgs (window-disjoint srcs g0 g1 fit).0
