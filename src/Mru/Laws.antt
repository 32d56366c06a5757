-- ===== src/Mru/Laws.antt =====
-- What a hit and a miss leave in a list that is kept by recent use.
use parquet_interop.Prelude.{
  ℕ, zero, suc, ◌-◌, ◌≤◌, ◌<◌, ◌≡◌, ◌≢◌, refl, ap, Bool, true, false, none, some, List, [], ◌∷◌,
  ◌++◌, arith, inl, inr, length, length-append, length-take, take, drop, get_elem?, set, replicate,
  Bool-cases, Option-cases,
}
use mathlib.Core.Path.{subst, sym}
use parquet_interop.Mru.{position, after_first, rotate_right, to_front, push_front}

module _ {ℓ} {A : Type ℓ} where
  -- `P` of every entry.
  abbrev pub All {κ} : (A → Type κ) → List A → Type κ
  All P [] = Unit
  All P (x ∷ xs) = P x × All P xs

  pub All-take {κ} : (P : A → Type κ) (n : ℕ) (xs : List A) → All P xs → All P (take n xs)
  All-take P zero xs h = tt
  All-take P (suc n) [] h = tt
  All-take P (suc n) (x ∷ xs) h = (h.0, All-take P n xs h.1)

  pub All-append {κ} : (P : A → Type κ) (xs ys : List A) → All P xs → All P ys → All P (xs ++ ys)
  All-append P [] ys front back = back
  All-append P (x ∷ xs) ys (first, front) back = (first, All-append P xs ys front back)

  pub All-append_left {κ} : (P : A → Type κ) (xs ys : List A) → All P (xs ++ ys) → All P xs
  All-append_left P [] ys h = tt
  All-append_left P (x ∷ xs) ys h = (h.0, All-append_left P xs ys h.1)

  pub All-append_right {κ} : (P : A → Type κ) (xs ys : List A) → All P (xs ++ ys) → All P ys
  All-append_right P [] ys h = h
  All-append_right P (x ∷ xs) ys h = All-append_right P xs ys h.1

  -- What a hit means: entry `e` passes the test, none before it does, and it comes to the front
  -- while the others keep their order.
  pub record Hit (p : A → Bool) (xs : List A) (i : ℕ) : Type ℓ where
    pub before : List A
    pub entry : A
    pub behind : List A
    pub found : p entry ≡ true
    pub first : All (λ x. p x ≡ false) before
    pub whole : xs ≡ before ++ (entry ∷ behind)
    pub moved : to_front i xs ≡ entry ∷ (before ++ behind)

  after_first_lem :
      (x : A) (ys zs : List A) {e : A} {r : List A}
      → ys ++ zs ≡ e ∷ r
      → ys ≢ []
      → after_first x ys ++ zs ≡ e ∷ x ∷ r
  unfolding after_first
  after_first_lem x [] zs h some_left = absurd (some_left refl)
  after_first_lem x (y ∷ ys) zs h some_left = cc

  after_first-ne-nil : (x : A) (ys : List A) → after_first x ys ≢ []
  unfolding after_first
  after_first-ne-nil x [] h = cc
  after_first-ne-nil x (y ∷ ys) h = cc

  to_front_cons :
      (x : A) (i : ℕ) (xs : List A) {e : A} {r : List A}
      → to_front i xs ≡ e ∷ r
      → to_front (suc i) (x ∷ xs) ≡ e ∷ x ∷ r
  unfolding to_front
  to_front_cons x i [] h = cc
  to_front_cons x i (y ∷ ys) h =
      after_first_lem x (rotate_right (take (suc i) (y ∷ ys))) (drop (suc i) (y ∷ ys)) h
        (after_first-ne-nil y (rotate_right (take i ys)))

  Hit-cons :
      (p : A → Bool) (x : A) (xs : List A) (i : ℕ)
      → p x ≡ false
      → Hit p xs i
      → Hit p (x ∷ xs) (suc i)
  Hit-cons p x xs i miss h = record {
    before = x ∷ h.before;
    entry = h.entry;
    behind = h.behind;
    found = h.found;
    first = (miss, h.first);
    whole = ap (◌∷◌ x) h.whole;
    moved = to_front_cons x i xs h.moved;
  }

  pub position-Hit : (p : A → Bool) (xs : List A) (i : ℕ) → position p xs ≡ some i → Hit p xs i
  unfolding position
  position-Hit p [] i h = cc
  position-Hit p (x ∷ xs) i h = elim (Bool-cases (p x)) [
    | inl here ↦
        let zero_th : i ≡ 0 = ground arith in
        rw zero_th (record {
          before = [];
          entry = x;
          behind = xs;
          found = here;
          first = tt;
          whole = refl;
          moved = unfold to_front in refl;
        })
    | inr there ↦ elim (Option-cases (position p xs)) [
      | inl nowhere ↦ cc (rw (there, nowhere, position) at h)
      | inr (j, at) ↦
          let next : i ≡ suc j = ground arith in
          rw next (Hit-cons p x xs j there (position-Hit p xs j at))
    ]
  ]

  pub position-none :
      (p : A → Bool) (xs : List A) → position p xs ≡ none → All (λ x. p x ≡ false) xs
  unfolding position
  position-none p [] h = tt
  position-none p (x ∷ xs) h = ground (arith, position-none p xs)

  pub Hit-All {κ} :
      (P : A → Type κ) (p : A → Bool) (xs : List A) (i : ℕ) (h : Hit p xs i)
      → All P xs
      → P h.entry × All P (to_front i xs)
  Hit-All P p xs i h all =
      let parts : All P (h.before ++ (h.entry ∷ h.behind)) = subst (All P) h.whole all in
      let behind = All-append_right P h.before (h.entry ∷ h.behind) parts in
      (
        behind.0,
        subst (All P) (sym h.moved) (
          behind.0,
          All-append P h.before h.behind (All-append_left P h.before _ parts) behind.1,
        ),
      )

  -- `R` of any two entries, in the order in which they stand.
  abbrev pub Pairwise {κ} : (A → A → Type κ) → List A → Type κ
  Pairwise R [] = Unit
  Pairwise R (x ∷ xs) = All (R x) xs × Pairwise R xs

  pub Pairwise-take {κ} :
      (R : A → A → Type κ) (n : ℕ) (xs : List A) → Pairwise R xs → Pairwise R (take n xs)
  Pairwise-take R zero xs h = tt
  Pairwise-take R (suc n) [] h = tt
  Pairwise-take R (suc n) (x ∷ xs) h = (All-take (R x) n xs h.0, Pairwise-take R n xs h.1)

  Pairwise-move {κ} :
      (R : A → A → Type κ)
      → ((x y : A) → R x y → R y x)
      → (pre : List A) (e : A) (post : List A) → Pairwise R (pre ++ (e ∷ post))
      → Pairwise R (e ∷ (pre ++ post))
  Pairwise-move R flip [] e post h = h
  Pairwise-move R flip (x ∷ pre) e post h =
      let rest = Pairwise-move R flip pre e post h.1 in
      let behind = All-append_right (R x) pre (e ∷ post) h.0 in
      (
        (flip x e behind.0, rest.0),
        (All-append (R x) pre post (All-append_left (R x) pre (e ∷ post) h.0) behind.1, rest.1),
      )

  pub Hit-Pairwise {κ} :
      (R : A → A → Type κ) (p : A → Bool) (xs : List A) (i : ℕ)
      → ((x y : A) → R x y → R y x)
      → Hit p xs i
      → Pairwise R xs
      → Pairwise R (to_front i xs)
  Hit-Pairwise R p xs i flip h pairs =
      subst (Pairwise R) (sym h.moved)
        (Pairwise-move R flip h.before h.entry h.behind (subst (Pairwise R) h.whole pairs))

  -- A hit keeps the number of entries, and a miss never makes more than `cap`.
  pub Hit-length :
      (p : A → Bool) (xs : List A) (i : ℕ) → Hit p xs i → length (to_front i xs) ≡ length xs
  Hit-length p xs i h = rw (h.moved, h.whole, length-append, length-append) (omega arith)

  pub length-push_front-le :
      (cap : ℕ) (x : A) (xs : List A) → 0 < cap → length (push_front cap x xs) ≤ cap
  unfolding push_front
  length-push_front-le cap x xs h = omega (arith, length-take (cap - 1) xs)

  pub All-get_elem? {κ} :
      (P : A → Type κ) (xs : List A) (i : ℕ) {x : A} → get_elem? xs i ≡ some x → All P xs → P x
  All-get_elem? P [] i e h = cc
  All-get_elem? P (y ∷ ys) zero e h = let same : y ≡ _ = ground arith in subst P same h.0
  All-get_elem? P (y ∷ ys) (suc i) e h = All-get_elem? P ys i e h.1

  pub All-set {κ} :
      (P : A → Type κ) (xs : List A) (i : ℕ) (x : A) → All P xs → P x → All P (set xs i x)
  All-set P [] i x h px = tt
  All-set P (y ∷ ys) zero x h px = (px, h.1)
  All-set P (y ∷ ys) (suc i) x h px = (h.0, All-set P ys i x h.1 px)

  pub All-replicate {κ} : (P : A → Type κ) (n : ℕ) (x : A) → P x → All P (replicate n x)
  All-replicate P zero x px = tt
  All-replicate P (suc n) x px = (px, All-replicate P n x px)
