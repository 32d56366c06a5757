-- ===== src/Read/Nulls/Visit.antt =====
-- src/read.rs, `each_null`: it calls `f` at the null rows, at each once and in ascending order.
use Prim.Native.Nat.{bit_and}
use native.Mathlib.Nat.{pow-suc, one-le-pow, add-zero, add_assoc, zero-add}
use parquet_interop.Prelude.{
  ℕ, zero, suc, ◌+◌, ◌-◌, ◌*◌, ◌/◌, ◌%◌, ◌^◌, ◌≤◌, ◌<◌, ◌≡◌, refl, sym, ap, ◌∙◌, Bool, true, false,
  not, inl, inr, List, [], ◌∷◌, ◌++◌, map, arith, ltb, ◌==◌, if◌then◌else◌, length, length-append,
  Bool-cases,
}
use parquet_interop.Prelude.Bits.{
  bits, bits_complement, bits_mask, bit_and-le, bit_and-le-right, clear_lowest_odd,
  clear_lowest_even,
}
use parquet_interop.Read.Nulls.{
  BitChunks, count_zeros, trailing_zeros, complement, visit_bits, visit_words, visit_rest,
  each_null,
}

-- The validity of each row that the chunks stand for.
abbrev pub word_bits : List ℕ → List Bool
word_bits [] = []
word_bits (w ∷ ws) = bits 64 w ++ word_bits ws

abbrev pub validity : BitChunks → List Bool
validity bc = word_bits bc.words ++ bits bc.remainder_len bc.remainder_bits

-- The words hold 64 bits each, and the remainder is shorter than a word.
abbrev pub Words : List ℕ → Type 0
Words [] = Unit
Words (w ∷ ws) = (w < 2 ^ 64) × Words ws

pub record IsChunked (bc : BitChunks) : Type 0 where
  pub full : Words bc.words
  pub partial_len : bc.remainder_len < 64
  pub partial : bc.remainder_bits < 2 ^ 64

-- `f` at the null rows among rows `i`, `i + 1`, … in order.
unfoldable pub at_nulls {ℓ} : {S : Type ℓ} → (ℕ → S → S) → ℕ → List Bool → S → S
at_nulls f i [] s = s
at_nulls f i (valid ∷ vs) s = at_nulls f (i + 1) vs (if valid then s else f i s)

count_zeros_more : (k m : ℕ) → 0 < m → m < 2 ^ k → count_zeros (suc k) m ≡ count_zeros k m
unfolding count_zeros
count_zeros_more zero m h small = absurd (omega arith)
count_zeros_more (suc k) m h small = ground (arith, pow-suc 2 k, count_zeros_more k (m / 2))

count_zeros_even : (k m : ℕ) → count_zeros (suc k) (2 * m) ≡ suc (count_zeros k m)
unfolding count_zeros
count_zeros_even k m =
    let half : 2 * m / 2 ≡ m = omega arith in
    let even : 2 * m % 2 ≡ 0 = omega arith in rw (half, even)

count_zeros_odd : (k m : ℕ) → count_zeros (suc k) (2 * m + 1) ≡ 0
unfolding count_zeros
count_zeros_odd k m = let odd : (2 * m + 1) % 2 ≡ 1 = omega arith in rw odd

trailing_zeros_even : (m : ℕ) → 0 < m → m < 2 ^ 63 → trailing_zeros (2 * m) ≡ suc (trailing_zeros m)
trailing_zeros_even m h small = count_zeros_even 63 m ∙ ap suc (sym (count_zeros_more 63 m h small))

module _ {ℓ} {S : Type ℓ} (f : ℕ → S → S) where
  visit_done : (fuel base : ℕ) (s : S) → visit_bits f fuel base 0 s ≡ s
  unfolding visit_bits
  visit_done zero base s = refl
  visit_done (suc fuel) base s = refl

  visit_next :
      (fuel base inv : ℕ) (s : S)
      → 0 < inv
      → visit_bits f (suc fuel) base inv s
        ≡ visit_bits f fuel base (bit_and inv (inv - 1)) (f (base + trailing_zeros inv) s)
  unfolding visit_bits
  visit_next fuel base inv s h = ground arith

  -- The bits of an even word are those of its half, a place further on.
  visit_even :
      (fuel base m : ℕ) (s : S)
      → m < 2 ^ 63
      → visit_bits f fuel base (2 * m) s ≡ visit_bits f fuel (base + 1) m s
  visit_even zero base m s small = unfold visit_bits in refl
  visit_even (suc fuel) base zero s small = visit_done _ _ s ∙ sym (visit_done _ _ s)
  visit_even (suc fuel) base (suc p) s small =
      let m = suc p in
      let first : base + trailing_zeros (2 * m) ≡ base + 1 + trailing_zeros m =
        omega (arith, trailing_zeros_even m (omega arith) small) in
      visit_next fuel base (2 * m) s (omega arith)
      ∙ rw (clear_lowest_even m (omega arith), first)
          (visit_even fuel base (bit_and m (m - 1)) (f (base + 1 + trailing_zeros m) s)
            (omega (arith, bit_and-le m (m - 1))))
      ∙ sym (visit_next fuel (base + 1) m s (omega arith))

  -- An odd word has its first bit at the base.
  visit_odd :
      (fuel base m : ℕ) (s : S)
      → m < 2 ^ 63
      → visit_bits f (suc fuel) base (2 * m + 1) s ≡ visit_bits f fuel (base + 1) m (f base s)
  visit_odd fuel base m s small =
      let first : base + trailing_zeros (2 * m + 1) ≡ base = omega (arith, count_zeros_odd 63 m) in
      visit_next fuel base (2 * m + 1) s (omega arith)
      ∙ rw (clear_lowest_odd m, first) (visit_even fuel base m (f base s) small)

  -- Enough fuel visits the set bits in order: `f` at the places of the complement's zeros.
  visit_bits_lem :
      (k fuel base inv : ℕ) (s : S)
      → k ≤ fuel
      → inv < 2 ^ 64
      → inv < 2 ^ k
      → visit_bits f fuel base inv s ≡ at_nulls f base (map not (bits k inv)) s
  unfolding bits at_nulls
  visit_bits_lem zero fuel base inv s enough word small =
      rw (zero_of inv small) (visit_done fuel base s)
    where
      zero_of : (n : ℕ) → n < 2 ^ 0 → n ≡ 0
      zero_of n h = omega arith
  visit_bits_lem (suc k) zero base inv s enough word small = absurd (omega arith)
  visit_bits_lem (suc k) (suc fuel) base inv s enough word small =
      let m = inv / 2 in
      let fits : m < 2 ^ k = omega (arith, pow-suc 2 k) in
      elim (Bool-cases (inv % 2 == 1)) [
        | inl odd ↦
            let split : inv ≡ 2 * m + 1 = ground arith in
            ap (λ n. visit_bits f (suc fuel) base n s) split
            ∙ visit_odd fuel base m s (omega arith)
            ∙ visit_bits_lem k fuel (base + 1) m (f base s) (omega arith) (omega arith) fits
            ∙ rw odd
        | inr even ↦
            let split : inv ≡ 2 * m = ground arith in
            ap (λ n. visit_bits f (suc fuel) base n s) split
            ∙ visit_even (suc fuel) base m s (omega arith)
            ∙ visit_bits_lem k (suc fuel) (base + 1) m s (omega arith) (omega arith) fits
            ∙ rw even
      ]

  at_nulls-append :
      (i : ℕ) (xs ys : List Bool) (s : S)
      → at_nulls f i (xs ++ ys) s ≡ at_nulls f (i + length xs) ys (at_nulls f i xs s)
  unfolding at_nulls
  at_nulls-append i [] ys s = rw add-zero
  at_nulls-append i (x ∷ xs) ys s =
      at_nulls-append (i + 1) xs ys (if x then s else f i s)
      ∙ ap (λ j. at_nulls f j ys (at_nulls f (i + 1) xs (if x then s else f i s))) (omega arith)

  length-bits : (k x : ℕ) → length (bits k x) ≡ k
  unfolding bits
  length-bits zero x = refl
  length-bits (suc k) x = ap suc (length-bits k (x / 2))

  map-not-not : (xs : List Bool) → map not (map not xs) ≡ xs
  map-not-not [] = refl
  map-not-not (true ∷ xs) = ap (◌∷◌ true) (map-not-not xs)
  map-not-not (false ∷ xs) = ap (◌∷◌ false) (map-not-not xs)

  visit_word :
      (base w : ℕ) (s : S)
      → w < 2 ^ 64
      → visit_bits f 64 base (complement w) s ≡ at_nulls f base (bits 64 w) s
  visit_word base w s h =
      visit_bits_lem 64 64 base (complement w) s (omega arith) (omega arith) (omega arith)
      ∙ rw (bits_complement 64 64 w (omega arith) h, map-not-not)

  visit_words_lem :
      (base : ℕ) (ws : List ℕ) (s : S)
      → Words ws
      → visit_words f base ws s ≡ (base + length (word_bits ws), at_nulls f base (word_bits ws) s)
  unfolding visit_words
  visit_words_lem base [] s h = unfold at_nulls in rw add-zero
  visit_words_lem base (w ∷ ws) s h = rw (visit_word base w s h.0) (
      visit_words_lem (base + 64) ws (at_nulls f base (bits 64 w) s) h.1
      ∙ rw (length-append, at_nulls-append, length-bits, add_assoc))

  visit_rest_lem :
      (bc : BitChunks) (base : ℕ) (s : S)
      → IsChunked bc
      → visit_rest f bc (base, s) ≡ at_nulls f base (bits bc.remainder_len bc.remainder_bits) s
  unfolding visit_rest
  visit_rest_lem bc base s h =
      let k = bc.remainder_len in
      let c = complement bc.remainder_bits in
      elim (Bool-cases (ltb 0 k)) [
        | inl some_left ↦
            rw (some_left, visit_rest)
              (visit_bits_lem k 64 base (bit_and c (2 ^ k - 1)) s (omega (arith, h.partial_len))
                  (omega (arith, bit_and-le c (2 ^ k - 1)))
                  (omega (arith, bit_and-le-right c (2 ^ k - 1), one-le-pow k 2))
                ∙ rw (bits_mask, bits_complement k 64 _ (omega arith) h.partial, map-not-not))
        | inr none_left ↦
            let empty : k ≡ 0 = ground arith in
            rw (none_left, visit_rest) (unfold bits at_nulls in rw empty)
      ]

  -- `each_null` applies `f` at each null row, in ascending order and once, and at no other row.
  pub each_null-eq-at_nulls :
      (bc : BitChunks) (s : S) → IsChunked bc → each_null f bc s ≡ at_nulls f 0 (validity bc) s
  unfolding each_null
  each_null-eq-at_nulls bc s h =
      rw (visit_words_lem 0 bc.words s h.full, zero-add)
        (visit_rest_lem bc _ _ h
          ∙ sym (
              at_nulls-append 0 (word_bits bc.words) (bits bc.remainder_len bc.remainder_bits) s
              ∙ rw zero-add))
