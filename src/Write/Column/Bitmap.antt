-- ===== src/Write/Column/Bitmap.antt =====
-- src/write.rs, `null_bits` and `col_prim`: what the array of a host vector stands for.
use mathlib.Core.Path.{ap₂}
use mathlib.Core.List.{map-append}
use mathlib.Core.Bool.{or_assoc}
use native.Mathlib.Nat.{zero-add, suc-add, add-zero}
use parquet_interop.Prelude.{
  ℕ, zero, suc, ◌+◌, ◌/◌, ◌≤◌, ◌≡◌, refl, sym, ap, ◌∙◌, Bool, true, false, not, ◌&&◌, ◌||◌, Option,
  none, some, List, [], ◌∷◌, ◌++◌, map, arith, ◌==◌, if◌then◌else◌, length, take, drop, replicate,
  length-map, length-take, length-drop, take-append-drop, append-nil, append_assoc, Bool-cases, leb,
  drop-length, length-take_of_le, inl, inr, ◌⊎◌, ◌↔◌,
}
use parquet_interop.Prelude.Bits.{bits}
use parquet_interop.Native.{NativeOps}
use parquet_interop.Read.Nulls.Visit.{word_bits}
use parquet_interop.Write.Column.{
  NullBuffer, full_word, null_buffer, chunks, chunk_word, scan, null_bits, shift_chunk, shift_scan,
  col_prim,
}
use parquet_interop.Write.Column.Pack.{
  pack, every, chunk_word_lem, bits-pack, take-bits, full_pack, full_word_lem,
}

-- The validity that a bitmap gives `n` rows: all of them are valid without one.
unfoldable pub valid_rows : ℕ → Option NullBuffer → List Bool
valid_rows n none = replicate n true
valid_rows n (some b) = take n (word_bits b.words)

module _ {ℓ} {T : Type ℓ} (valid : T → Bool) where
  abbrev word : List T → ℕ
  word c = pack (map valid c)

  abbrev any_null : List (List T) → Bool
  any_null [] = false
  any_null (c ∷ cs) = not (every (map valid c)) || any_null cs

  word_lem : (c : List T) → chunk_word valid c 0 0 ≡ word c
  word_lem c = chunk_word_lem valid c 0 0 (omega arith) ∙ omega arith

  full_lem : (c : List T) → length c ≤ 64 → (word c == full_word (length c)) ≡ every (map valid c)
  full_lem c h = rw (full_word_lem (length c) h, sym (length-map c valid)) (full_pack (map valid c))

  scan_step :
      (c : List T) (cs : List (List T)) (nulls : Bool) (bs : List ℕ)
      → length c ≤ 64
      → scan valid (c ∷ cs) (nulls, bs)
        ≡ scan valid cs (nulls || not (every (map valid c)), bs ++ (word c ∷ []))
  unfolding scan
  scan_step c cs nulls bs h = rw (word_lem c, full_lem c h)

  none_left : (nulls : Bool) (bs : List ℕ) → scan valid [] (nulls, bs) ≡ (nulls || false, bs ++ [])
  unfolding scan
  none_left nulls bs = ap₂ (λ a b. (a, b)) (ground arith) (sym (append-nil bs))

  scan_lem :
      (fuel : ℕ) (s : List T) (nulls : Bool) (bs : List ℕ)
      → scan valid (chunks fuel s) (nulls, bs)
        ≡ (nulls || any_null (chunks fuel s), bs ++ map word (chunks fuel s))
  unfolding chunks
  scan_lem zero s nulls bs = none_left nulls bs
  scan_lem (suc fuel) [] nulls bs = none_left nulls bs
  scan_lem (suc fuel) (x ∷ s) nulls bs =
      let c = take 64 (x ∷ s) in
      let short : length c ≤ 64 = omega (arith, length-take 64 (x ∷ s)) in
      scan_step c (chunks fuel (drop 64 (x ∷ s))) nulls bs short
      ∙ scan_lem fuel (drop 64 (x ∷ s)) _ _
      ∙ ap₂ (λ a b. (a, b))
          (or_assoc nulls (not (every (map valid c))) (any_null (chunks fuel (drop 64 (x ∷ s)))))
          (append_assoc bs (word c ∷ []) (map word (chunks fuel (drop 64 (x ∷ s)))))

length-bits : (n x : ℕ) → length (bits n x) ≡ n
unfolding bits
length-bits zero x = refl
length-bits (suc n) x = ap suc (length-bits n (x / 2))

module _ {ℓ} {A : Type ℓ} where
  take-append_of_le : (n : ℕ) (p q : List A) → n ≤ length p → take n (p ++ q) ≡ take n p
  take-append_of_le zero p q h = refl
  take-append_of_le (suc n) [] q h = absurd (omega arith)
  take-append_of_le (suc n) (x ∷ p) q h = ap (◌∷◌ x) (take-append_of_le n p q (omega arith))

  take-append_add : (p q : List A) (n : ℕ) → take (length p + n) (p ++ q) ≡ p ++ take n q
  take-append_add [] q n = rw zero-add
  take-append_add (x ∷ p) q n = rw suc-add (ap (◌∷◌ x) (take-append_add p q n))

module _ {ℓ} {A : Type ℓ} where
  abbrev flatten : List (List A) → List A
  flatten [] = []
  flatten (xs ∷ xss) = xs ++ flatten xss

  none_or_some {κ} : {P : Type κ} (o : Option A) {x : A} → o ≡ none → o ≡ some x → P
  none_or_some o h g = cc

every-append : (xs ys : List Bool) → every (xs ++ ys) ≡ (every xs && every ys)
every-append [] ys = refl
every-append (false ∷ xs) ys = refl
every-append (true ∷ xs) ys = every-append xs ys

all_true : (xs : List Bool) → every xs ≡ true → xs ≡ replicate (length xs) true
all_true [] h = refl
all_true (false ∷ xs) h = cc
all_true (true ∷ xs) h = ap (◌∷◌ true) (all_true xs h)

module _ {ℓ} {T : Type ℓ} (valid : T → Bool) where
  whole_word : (c : List T) → length c ≡ 64 → bits 64 (word valid c) ≡ map valid c
  whole_word c h =
      ap (λ n. bits n (word valid c)) (sym (length-map c valid ∙ h)) ∙ bits-pack (map valid c)

  -- A chunk is whole, or the last one.
  chunk_rows :
      (c rest : List T) (ws : List Bool)
      → length c ≤ 64
      → (length c ≡ 64) ⊎ (rest ≡ [])
      → take (length rest) ws ≡ map valid rest
      → take (length c + length rest) (bits 64 (word valid c) ++ ws) ≡ map valid c ++ map valid rest
  chunk_rows c rest ws h (inl whole) e =
      ap (λ b. take (length c + length rest) (b ++ ws)) (whole_word c whole)
      ∙ ap (λ n. take (n + length rest) (map valid c ++ ws)) (sym (length-map c valid))
      ∙ take-append_add (map valid c) ws (length rest)
      ∙ ap (λ r. map valid c ++ r) e
  chunk_rows c rest ws h (inr last) e = rw last (
      rw (add-zero, append-nil (map valid c))
        (take-append_of_le (length c) (bits 64 (word valid c)) ws
            (omega (arith, length-bits 64 (word valid c)))
          ∙ take-bits (length c) 64 (word valid c) h
          ∙ ap (λ n. bits n (word valid c)) (sym (length-map c valid))
          ∙ bits-pack (map valid c)))

  count_cases : (n : ℕ) → (n ≤ 64) ⊎ (64 ≤ n)
  count_cases n = elim (Bool-cases (leb n 64)) [
    | inl le ↦ inl (ground arith)
    | inr gt ↦ inr (ground arith)
  ]

  split_rows : (s : List T) → (length (take 64 s) ≡ 64) ⊎ (drop 64 s ≡ [])
  split_rows s = elim (count_cases (length s)) [
    | inl le ↦ inr (drop-length s 64 le)
    | inr ge ↦ inl (length-take_of_le 64 s ge)
  ]

  joined : (s : List T) → map valid (take 64 s) ++ map valid (drop 64 s) ≡ map valid s
  joined s = sym (map-append valid (take 64 s) (drop 64 s)) ∙ ap (map valid) (take-append-drop 64 s)

  words_rows :
      (fuel : ℕ) (s : List T)
      → length s ≤ fuel
      → take (length s) (word_bits (map (word valid) (chunks fuel s))) ≡ map valid s
  unfolding chunks
  words_rows zero [] h = refl
  words_rows zero (x ∷ s) h = absurd (omega arith)
  words_rows (suc fuel) [] h = refl
  words_rows (suc fuel) (x ∷ s) h =
      let c = take 64 (x ∷ s) in
      let rest = drop 64 (x ∷ s) in
      let sum : length (x ∷ s) ≡ length c + length rest =
        omega (arith, length-take 64 (x ∷ s), length-drop 64 (x ∷ s)) in
      let ws = word_bits (map (word valid) (chunks fuel rest)) in
      ap (λ n. take n (bits 64 (word valid c) ++ ws)) sum
      ∙ chunk_rows c rest ws (omega (arith, length-take 64 (x ∷ s))) (split_rows (x ∷ s))
          (words_rows fuel rest (omega (arith, length-drop 64 (x ∷ s))))
      ∙ joined (x ∷ s)

  not_and : (a b : Bool) → (not a || not b) ≡ not (a && b)
  not_and true b = refl
  not_and false b = refl

  any_null_lem :
      (fuel : ℕ) (s : List T)
      → length s ≤ fuel
      → any_null valid (chunks fuel s) ≡ not (every (map valid s))
  unfolding chunks
  any_null_lem zero [] h = refl
  any_null_lem zero (x ∷ s) h = absurd (omega arith)
  any_null_lem (suc fuel) [] h = refl
  any_null_lem (suc fuel) (x ∷ s) h =
      let c = map valid (take 64 (x ∷ s)) in
      let rest = drop 64 (x ∷ s) in
      ap (λ b. not (every c) || b) (any_null_lem fuel rest (omega (arith, length-drop 64 (x ∷ s))))
      ∙ not_and (every c) (every (map valid rest))
      ∙ ap not (sym (every-append c (map valid rest)) ∙ ap every (joined (x ∷ s)))

module _ {ℓ} {T : Type ℓ} (valid : T → Bool) where
  null_bits_form :
      (s : List T)
      → null_bits valid s
        ≡ null_buffer (length s) (not (every (map valid s)), map (word valid) (chunks (length s) s))
  unfolding null_bits
  null_bits_form s = ap (null_buffer (length s)) (
      scan_lem valid (length s) s false []
      ∙ ap (λ b. (b, map (word valid) (chunks (length s) s)))
          (any_null_lem valid (length s) s (omega arith)))

  some_null :
      (s : List T)
      → every (map valid s) ≡ false
      → null_bits valid s
        ≡ some (record { words = map (word valid) (chunks (length s) s); len = length s })
  unfolding null_buffer
  some_null s h = null_bits_form s ∙ rw h

  no_null : (s : List T) → every (map valid s) ≡ true → null_bits valid s ≡ none
  unfolding null_buffer
  no_null s h = null_bits_form s ∙ rw h

  -- The bitmap that `null_bits` assembles a word at a time gives each row the validity of its
  -- value, and there is none exactly where all values are valid.
  pub null_bits_lem :
      (s : List T)
      → (valid_rows (length s) (null_bits valid s) ≡ map valid s)
        × ((null_bits valid s ≡ none) ↔ (every (map valid s) ≡ true))
  unfolding valid_rows
  null_bits_lem s = elim (Bool-cases (every (map valid s))) [
    | inl all ↦ (
      ap (valid_rows (length s)) (no_null s all)
          ∙ sym (all_true (map valid s) all ∙ rw (length-map s valid)),
      ((λ h. all), (λ h. no_null s h)),
    )
    | inr null ↦ (
      ap (valid_rows (length s)) (some_null s null) ∙ words_rows valid (length s) s (omega arith),
      ((λ h. none_or_some (null_bits valid s) h (some_null s null)), (λ h. cc)),
    )
  ]

module _ {ℓ} {T : Type ℓ} (o : NativeOps T) (sh : T) (valid : T → Bool) where
  abbrev shifted : T → T
  shifted x = o.add_wrapping x sh

  shift_chunk_lem :
      (c : List T) (i w : ℕ) (v : List T)
      → shift_chunk o sh valid c i w v ≡ (chunk_word valid c i w, v ++ map shifted c)
  unfolding shift_chunk chunk_word
  shift_chunk_lem [] i w v = ap (λ r. (w, r)) (sym (append-nil v))
  shift_chunk_lem (x ∷ c) i w v =
      shift_chunk_lem c (suc i) _ _
      ∙ ap (λ r. (chunk_word valid (x ∷ c) i w, r))
          (append_assoc v (shifted x ∷ []) (map shifted c))

  shift_scan_lem :
      (cs : List (List T)) (st : Bool × List ℕ) (v : List T)
      → shift_scan o sh valid cs st v ≡ (scan valid cs st, v ++ map shifted (flatten cs))
  unfolding shift_scan scan
  shift_scan_lem [] st v = ap (λ r. (st, r)) (sym (append-nil v))
  shift_scan_lem (c ∷ cs) (nulls, bs) v = rw (shift_chunk_lem c 0 0 v) (
      shift_scan_lem cs _ _
      ∙ ap (λ r. (scan valid (c ∷ cs) (nulls, bs), r))
          (append_assoc v (map shifted c) (map shifted (flatten cs))
            ∙ ap (λ r. v ++ r) (sym (map-append shifted c (flatten cs)))))

  flatten-chunks : (fuel : ℕ) (s : List T) → length s ≤ fuel → flatten (chunks fuel s) ≡ s
  unfolding chunks
  flatten-chunks zero [] h = refl
  flatten-chunks zero (x ∷ s) h = absurd (omega arith)
  flatten-chunks (suc fuel) [] h = refl
  flatten-chunks (suc fuel) (x ∷ s) h =
      ap (λ r. take 64 (x ∷ s) ++ r)
        (flatten-chunks fuel (drop 64 (x ∷ s)) (omega (arith, length-drop 64 (x ∷ s))))
      ∙ take-append-drop 64 (x ∷ s)

  -- The single pass of `col_prim` over a shifted column makes the array that a pass over the values
  -- and `null_bits` make: the values with `sh` added, wrapping, and the bitmap of the values as
  -- they were before the shift.
  pub col_prim_lem :
      (s : List T)
      → col_prim o sh valid s ≡ record {
        values = if o.is_zero sh then s else map (λ x. o.add_wrapping x sh) s;
        nulls = null_bits valid s;
      }
  unfolding col_prim null_bits
  col_prim_lem s =
      rw
        (
          shift_scan_lem (chunks (length s) s) (false, []) [],
          flatten-chunks (length s) s (omega arith),
        )
        (ground arith)
