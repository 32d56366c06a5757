-- ===== src/Read/Window/Search.antt =====
-- src/read.rs, `split`: a column of a part is found in the sorted columns of the part.
use mathlib.Core.Path.{subst, ap₂}
use parquet_interop.Prelude.{
  ℕ, suc, ◌≡◌, refl, inl, inr, ◌⊎◌, some, List, [], ◌∷◌, map, arith, leb, ◌==◌, get_or, Bool-cases,
  ok,
}
use parquet_interop.Mru.{position}
use parquet_interop.Mru.Laws.{All}
use parquet_interop.Read.Window.{insert, sort, search_each}

-- `c` is one of them.
abbrev pub In : ℕ → List ℕ → Type 0
In c [] = ⊥
In c (x ∷ xs) = (x ≡ c) ⊎ In c xs

In-insert_self : (x : ℕ) (xs : List ℕ) → In x (insert x xs)
In-insert_self x [] = inl refl
In-insert_self x (y ∷ ys) = elim (Bool-cases (leb x y)) [
  | inl before ↦ rw before (inl refl)
  | inr behind ↦ rw behind (inr (In-insert_self x ys))
]

In-insert_kept : (c x : ℕ) (xs : List ℕ) → In c xs → In c (insert x xs)
In-insert_kept c x [] h = absurd h
In-insert_kept c x (y ∷ ys) h = elim (Bool-cases (leb x y)) [
  | inl before ↦ rw before (inr h)
  | inr behind ↦
      rw behind (elim h [ inl here ↦ inl here | inr later ↦ inr (In-insert_kept c x ys later) ])
]

pub In-sort : (c : ℕ) (xs : List ℕ) → In c xs → In c (sort xs)
unfolding sort
In-sort c [] h = absurd h
In-sort c (x ∷ xs) (inl here) =
    subst (λ d. In d (insert x (sort xs))) here (In-insert_self x (sort xs))
In-sort c (x ∷ xs) (inr later) = In-insert_kept c x (sort xs) (In-sort c xs later)

search_lem :
    (c : ℕ) (srt : List ℕ)
    → In c srt
    → (i : ℕ) × (position (λ x. x == c) srt ≡ some i) × (get_or srt i 0 ≡ c)
unfolding position
search_lem c [] h = absurd h
search_lem c (x ∷ xs) h = elim (Bool-cases (x == c)) [
  | inl here ↦ (0, rw here, ground arith)
  | inr there ↦
      let (i, at, found) =
        search_lem c xs (elim h [ inl here ↦ ground arith | inr later ↦ later ]) in
      (suc i, rw (there, at), found)
]

pub search_each_lem :
    (srt cs : List ℕ)
    → All (λ c. In c srt) cs
    → (is : List ℕ) × (search_each srt cs ≡ ok is) × (map (λ i. get_or srt i 0) is ≡ cs)
unfolding search_each
search_each_lem srt [] h = ([], refl, refl)
search_each_lem srt (c ∷ cs) h =
    let (i, at, found) = search_lem c srt h.0 in
    let (is, each, all) = search_each_lem srt cs h.1 in (i ∷ is, rw (at, each), ap₂ ◌∷◌ found all)

pub All-In : (xs : List ℕ) (ys : List ℕ) → ((c : ℕ) → In c ys → In c xs) → All (λ c. In c xs) ys
All-In xs [] h = tt
All-In xs (y ∷ ys) h = (h y (inl refl), All-In xs ys (λ c later. h c (inr later)))
