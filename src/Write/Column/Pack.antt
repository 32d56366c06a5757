-- ===== src/Write/Column/Pack.antt =====
-- src/write.rs, `null_bits`: the word of a chunk has the chunk's validity as its binary digits.
use Prim.Native.Nat.{bit_or}
use native.Mathlib.Nat.{
  pow-suc, one-le-pow, mul_assoc, mul_comm, add-mul, zero-add, suc-add, div-eq_of_lt-le,
}
use mathlib.Core.Path.{ap₂}
use parquet_interop.Prelude.{
  ℕ, zero, suc, ◌+◌, ◌-◌, ◌*◌, ◌/◌, ◌%◌, ◌^◌, ◌≤◌, ◌<◌, ◌≡◌, refl, sym, ap, ◌∙◌, Bool, true, false,
  ◌&&◌, List, [], ◌∷◌, map, arith, ◌==◌, length, take, max,
}
use parquet_interop.Prelude.Bits.{bits, bit_or_digit}
use parquet_interop.Write.Column.{as_word, full_word, chunk_word}

abbrev pub pack : List Bool → ℕ
pack [] = 0
pack (b ∷ bs) = as_word b + 2 * pack bs

abbrev pub every : List Bool → Bool
every [] = true
every (b ∷ bs) = b && every bs

bit_or_zero : (n m : ℕ) → m ≤ n → bit_or m 0 ≡ m
bit_or_zero n zero h = refl
bit_or_zero zero (suc m) h = absurd (omega arith)
bit_or_zero (suc n) (suc m) h =
    omega (arith, bit_or_digit (suc m) 0, bit_or_zero n (suc m / 2) (omega arith))

-- Setting a bit above all others.
bit_or_top : (k m : ℕ) → m < 2 ^ k → bit_or m (2 ^ k) ≡ m + 2 ^ k
bit_or_top zero zero h = refl
bit_or_top zero (suc m) h = absurd (omega arith)
bit_or_top (suc k) m h =
    let double = pow-suc 2 k in
    let half : 2 ^ suc k / 2 ≡ 2 ^ k = omega (arith, double) in
    let even : 2 ^ suc k % 2 ≡ 0 = omega (arith, double) in
    let digit : bit_or m (2 ^ suc k) ≡ 2 * bit_or (m / 2) (2 ^ k) + max (m % 2) 0 =
      rw (bit_or_digit, half, even) in
    omega (arith, double, digit, bit_or_top k (m / 2) (omega (arith, double)))

bit_or-as_word :
    (b : Bool) (i w : ℕ) → w < 2 ^ i → bit_or w (as_word b * 2 ^ i) ≡ w + as_word b * 2 ^ i
bit_or-as_word false i w h =
    let none : 0 * 2 ^ i ≡ 0 = omega arith in rw none (bit_or_zero w w (omega arith) ∙ omega arith)
bit_or-as_word true i w h = let one : 1 * 2 ^ i ≡ 2 ^ i = omega arith in rw one (bit_or_top i w h)

module _ {ℓ} {T : Type ℓ} (valid : T → Bool) where
  pub chunk_word_lem :
      (c : List T) (i w : ℕ) → w < 2 ^ i → chunk_word valid c i w ≡ w + pack (map valid c) * 2 ^ i
  unfolding chunk_word
  chunk_word_lem [] i w h = omega arith
  chunk_word_lem (x ∷ c) i w h = rw (bit_or-as_word (valid x) i w h) (
      chunk_word_lem c (suc i) (w + as_word (valid x) * 2 ^ i) (below (valid x))
      ∙ place (valid x) (pack (map valid c)))
    where
      below : (b : Bool) → w + as_word b * 2 ^ i < 2 ^ suc i
      below false = omega (arith, pow-suc 2 i)
      below true = omega (arith, pow-suc 2 i)

      place :
          (b : Bool) (p : ℕ)
          → w + as_word b * 2 ^ i + p * 2 ^ suc i ≡ w + (as_word b + 2 * p) * 2 ^ i
      place b p =
          let double : p * 2 ^ suc i ≡ 2 * (p * 2 ^ i) =
            rw (pow-suc 2 i) (sym (mul_assoc p (2 ^ i) 2) ∙ mul_comm (p * 2 ^ i) 2) in
          let spread : (as_word b + 2 * p) * 2 ^ i ≡ as_word b * 2 ^ i + 2 * (p * 2 ^ i) =
            add-mul (as_word b) (2 * p) (2 ^ i)
            ∙ ap (◌+◌ (as_word b * 2 ^ i)) (mul_assoc 2 p (2 ^ i)) in
          omega (arith, double, spread)

pack_lt : (bs : List Bool) → pack bs < 2 ^ length bs
pack_lt [] = omega arith
pack_lt (false ∷ bs) = omega (arith, pow-suc 2 (length bs), pack_lt bs)
pack_lt (true ∷ bs) = omega (arith, pow-suc 2 (length bs), pack_lt bs)

pub bits-pack : (bs : List Bool) → bits (length bs) (pack bs) ≡ bs
unfolding bits
bits-pack [] = refl
bits-pack (b ∷ bs) =
    let half : pack (b ∷ bs) / 2 ≡ pack bs = ground arith in
    ap₂ ◌∷◌ (ground arith) (rw half (bits-pack bs))

pub take-bits : (k n x : ℕ) → k ≤ n → take k (bits n x) ≡ bits k x
unfolding bits
take-bits zero n x h = refl
take-bits (suc k) zero x h = absurd (omega arith)
take-bits (suc k) (suc n) x h = ap (◌∷◌ (x % 2 == 1)) (take-bits k n (x / 2) (omega arith))

-- The word of a chunk without nulls, and of no other.
pub full_pack : (bs : List Bool) → (pack bs == 2 ^ length bs - 1) ≡ every bs
full_pack [] = refl
full_pack (false ∷ bs) = ground (arith, pow-suc 2 (length bs), pack_lt bs)
full_pack (true ∷ bs) =
    ground (arith, pow-suc 2 (length bs), pack_lt bs, full_pack bs, one-le-pow (length bs) 2)

pow_split : (n j : ℕ) → 2 ^ (n + j) ≡ 2 ^ n * 2 ^ j
pow_split zero j = rw zero-add (omega arith)
pow_split (suc n) j = rw suc-add (
    pow-suc 2 (n + j)
    ∙ ap (λ x. x * 2) (pow_split n j)
    ∙ mul_assoc (2 ^ n) (2 ^ j) 2
    ∙ ap (λ x. 2 ^ n * x) (mul_comm (2 ^ j) 2)
    ∙ sym (mul_assoc (2 ^ n) 2 (2 ^ j))
    ∙ ap (λ x. x * 2 ^ j) (sym (pow-suc 2 n)))

pub full_word_lem : (n : ℕ) → n ≤ 64 → full_word n ≡ 2 ^ n - 1
unfolding full_word
full_word_lem n h =
    let j = 64 - n in
    let sum : n + j ≡ 64 = omega arith in
    let whole : 2 ^ n * 2 ^ j ≡ 2 ^ 64 = sym (pow_split n j) ∙ ap (λ e. 2 ^ e) sum in
    let next : 2 ^ n - 1 + 1 ≡ 2 ^ n = omega (arith, one-le-pow n 2) in
    let less : 2 ^ n * 2 ^ j ≡ (2 ^ n - 1) * 2 ^ j + 2 ^ j =
      ap (λ x. x * 2 ^ j) (sym next) ∙ add-mul (2 ^ n - 1) 1 (2 ^ j) ∙ omega arith in
    let last : (2 ^ n - 1 + 1) * 2 ^ j ≡ 2 ^ 64 = rw next whole in
    div-eq_of_lt-le (2 ^ j) (omega (arith, whole, less, one-le-pow j 2)) (omega (arith, last))
