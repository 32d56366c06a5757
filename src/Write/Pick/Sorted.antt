-- ===== src/Write/Pick/Sorted.antt =====
-- src/write.rs, `pick_int`: its probes stay in the vector, and a sorted column is found.
use native.Mathlib.Nat.{mul-div-le, mul-le-mul_right, suc-mul}
use parquet_interop.Prelude.{
  ℕ, zero, suc, ◌+◌, ◌*◌, ◌/◌, ◌≤◌, ◌<◌, ◌≡◌, refl, ap, ◌∙◌, Bool, true, false, ◌&&◌, ◌||◌, ◌⊎◌,
  inl, inr, some, List, [], ◌∷◌, arith, ltb, if◌then◌else◌, length, get_elem?, get_elem?_total, min,
  max,
}
use parquet_interop.Prelude.Int.{ℤ, leb_ℤ}
use parquet_interop.Write.Pick.{
  Enc, delta, plain, dict, rle, sample_max, probe, push, sample, windows_all, cardinality,
  dict_card, choose, pick_int,
}

abbrev pub is_dict : Enc → Bool
is_dict dict = true
is_dict plain = false
is_dict delta = false
is_dict rle = false

abbrev up : ℤ → ℤ → Bool
up a b = leb_ℤ a b

-- A column without nulls, in ascending order.
pub record IsSorted (t : ℕ) (col : List ℤ) : Type 0 where
  pub no_null : (i : ℕ) (x : ℤ) → get_elem? col i ≡ some x → probe t x ≡ some x
  pub ordered :
      (i j : ℕ) (x y : ℤ)
      → i ≤ j
      → get_elem? col i ≡ some x
      → get_elem? col j ≡ some y
      → leb_ℤ x y ≡ true

abbrev Below : List ℤ → ℕ → ℤ → Type 0
Below col i z = (j : ℕ) (y : ℤ) → i ≤ j → get_elem? col j ≡ some y → leb_ℤ z y ≡ true

and_both : {a b : Bool} → a ≡ true → b ≡ true → (a && b) ≡ true
and_both h g = cc

module _ (col : List ℤ) (t step : ℕ) (h : IsSorted t col) where
  sample_next :
      (i k : ℕ) (x : ℤ) (v : List ℤ)
      → get_elem? col (i * step) ≡ some x
      → sample col t step (suc i) k ≡ some v
      → sample col t step i (suc k) ≡ some (x ∷ v)
  unfolding sample
  sample_next i k x v at rest = rw (sample, at, rest, h.no_null (i * step) x at)

  sample_lem :
      (k i : ℕ)
      → ((j : ℕ) → j < i + k → j * step < length col)
      → (v : List ℤ) × (sample col t step i k ≡ some v)
        × (length v ≡ k)
        × ((z : ℤ) → Below col (i * step) z → windows_all up (z ∷ v) ≡ true)
  sample_lem zero i room = ([], unfold sample in refl, refl, λ z below. refl)
  sample_lem (suc k) i room =
      let here = get_elem?_total col (i * step) (room i (omega arith)) in
      let x = here.0 in
      let rest = sample_lem k (suc i) (λ j lt. room j (omega arith)) in
      let further : i * step ≤ suc i * step = mul-le-mul_right step (omega arith) in
      (
        x ∷ rest.0,
        sample_next i k x rest.0 here.1 rest.1,
        ap suc rest.2,
        λ z below.
            and_both (below (i * step) x (omega arith) here.1) (
              rest.3 x
                (λ j y le at. h.ordered (i * step) j x y (omega (arith, further)) here.1 at)),
      )

-- No probe leaves the column.
stride : (n m j : ℕ) → 0 < m → m ≤ n → j < m → j * max (n / m) 1 < n
stride n m j positive le lt =
    let step = max (n / m) 1 in
    let whole : m * step ≤ n = within (n / m) (mul-div-le n m) in
    let next : suc j * step ≤ m * step = mul-le-mul_right step (omega arith) in
    omega (arith, whole, next, suc-mul j step)
  where
    within : (q : ℕ) → m * q ≤ n → m * max q 1 ≤ n
    within zero h = let one : m * 1 ≡ m = omega arith in omega (arith, one)
    within (suc q) h = let same : max (suc q) 1 ≡ suc q = omega arith in rw same h

tail_windows : (x : ℤ) (v : List ℤ) → windows_all up (x ∷ v) ≡ true → windows_all up v ≡ true
tail_windows x [] h = refl
tail_windows x (y ∷ v) h = ground (arith, h)

choose_sorted :
    (m n : ℕ) (dictionary : Bool) (v : List ℤ)
    → 2 ≤ length v
    → windows_all up v ≡ true
    → choose m n dictionary v ≡ delta
unfolding choose
choose_sorted m n dictionary v long sorted = rw sorted (ground (arith, long))

module _ (col : List ℤ) (t : ℕ) (dictionary : Bool) where
  pick_int-sample :
      (v : List ℤ)
      → 2 ≤ length col
      → sample col t
          (max (length col / min sample_max (length col)) 1)
          0
          (min sample_max (length col))
        ≡ some v
      → pick_int col t (length col) dictionary
        ≡ some (choose (min sample_max (length col)) (length col) dictionary v)
  unfolding pick_int
  pick_int-sample v long found =
      let test : ltb (length col) 2 ≡ false = ground arith in rw (pick_int, test, found)

  -- An ascending column without nulls is written in the delta encoding, whatever its length from
  -- two rows on: the sample reads no row past the end, and its values are ascending too.
  pub pick_int-sorted :
      IsSorted t col → 2 ≤ length col → pick_int col t (length col) dictionary ≡ some delta
  pick_int-sorted h long =
      let n = length col in
      let m = min sample_max n in
      let step = max (n / m) 1 in
      let found =
        sample_lem col t step h m 0
          (λ j lt. stride n m j (omega arith) (omega arith) (omega arith)) in
      let first = get_elem?_total col 0 (omega arith) in
      let ascending =
        found.3 first.0 (λ j y le at. h.ordered 0 j first.0 y (omega arith) first.1 at) in
      pick_int-sample found.0 long found.1
      ∙ ap some (
          choose_sorted m n dictionary found.0 (omega (arith, found.2))
            (tail_windows first.0 found.0 ascending))

  sample_step_total :
      (step i k : ℕ) (x : ℤ) (v : List ℤ)
      → get_elem? col (i * step) ≡ some x
      → sample col t step (suc i) k ≡ some v
      → sample col t step i (suc k) ≡ some (push (probe t x) v)
  unfolding sample
  sample_step_total step i k x v at rest = rw (sample, at, rest)

  sample_total :
      (step k i : ℕ)
      → ((j : ℕ) → j < i + k → j * step < length col)
      → (v : List ℤ) × (sample col t step i k ≡ some v)
  sample_total step zero i room = ([], unfold sample in refl)
  sample_total step (suc k) i room =
      let here = get_elem?_total col (i * step) (room i (omega arith)) in
      let rest = sample_total step k (suc i) (λ j lt. room j (omega arith)) in
      (push (probe t here.0) rest.0, sample_step_total step i k here.0 rest.0 here.1 rest.1)

  no_dict : (m n : ℕ) (v : List ℤ) → dictionary ≡ false → is_dict (choose m n dictionary v) ≡ false
  unfolding choose
  no_dict m n v h = rw h (
      none_of (ltb (length v) 2)
        (windows_all (λ a b. leb_ℤ a b) v || windows_all (λ a b. leb_ℤ b a) v)
        (ltb (cardinality m n v) dict_card))
    where
      none_of :
          (a b c : Bool)
          → is_dict (
              if a
              then plain
              else if b
              then delta
              else if c
              then if false then dict else delta
              else plain)
            ≡ false
      none_of true b c = refl
      none_of false true c = refl
      none_of false false true = refl
      none_of false false false = refl

  -- For every column `pick_int` finds an encoding without a read past the end, and never the
  -- dictionary where the option is off.
  pub pick_int-no-fault :
      (e : Enc) × (pick_int col t (length col) dictionary ≡ some e)
      × (dictionary ≡ false → is_dict e ≡ false)
  unfolding pick_int
  pick_int-no-fault = elim (two_or_less (length col)) [
    | inl short ↦ (plain, pick_short short, λ h. refl)
    | inr long ↦
        let n = length col in
        let m = min sample_max n in
        let found =
          sample_total (max (n / m) 1) m 0
            (λ j lt. stride n m j (omega arith) (omega arith) (omega arith)) in
        (choose m n dictionary found.0, pick_int-sample found.0 long found.1, no_dict m n found.0)
  ]
    where
      two_or_less : (n : ℕ) → (n < 2) ⊎ (2 ≤ n)
      two_or_less zero = inl (omega arith)
      two_or_less (suc zero) = inl (omega arith)
      two_or_less (suc (suc n)) = inr (omega arith)

      pick_short : length col < 2 → pick_int col t (length col) dictionary ≡ some plain
      pick_short short = let test : ltb (length col) 2 ≡ true = ground arith in rw (pick_int, test)
