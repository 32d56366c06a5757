-- ===== src/Prelude/Bits.antt =====
-- Bit operations on native numbers: one equation for the lowest digit of each, what they do to the
-- lowest set bit, and the binary digits of a word as a list.
use Prim.Native.Nat.{
  digits, differ, bit_and, bit_or, bit_xor, bit_and-bitwise, bit_or-bitwise, bit_xor-bitwise,
}
use native.Mathlib.Nat.{pow-suc, one-le-pow}
use mathlib.Core.Path.{ap₂}
use parquet_interop.Prelude.{
  ℕ, zero, suc, ◌+◌, ◌-◌, ◌*◌, ◌/◌, ◌%◌, ◌^◌, ◌≤◌, ◌<◌, min, max, ◌≡◌, refl, sym, ap, ◌∙◌, Bool,
  not, List, [], ◌∷◌, map, arith, ◌==◌, ltb, if◌then◌else◌,
}

-- The recursion on digits that a native bit operation stands for takes any fuel from `a` on.
enough :
    (rest : ℕ → ℕ) (digit : ℕ → ℕ → ℕ) (k l a b : ℕ)
    → a ≤ k
    → a ≤ l
    → digits rest digit k a b ≡ digits rest digit l a b
enough rest digit k l zero b hk hl = ends k ∙ sym (ends l)
  where
    ends : (n : ℕ) → digits rest digit n zero b ≡ rest b
    ends zero = refl
    ends (suc n) = refl
enough rest digit (suc k) (suc l) (suc a) b hk hl =
    ap (λ t. t * 2 + digit (suc a % 2) (b % 2))
      (enough rest digit k l (suc a / 2) (b / 2) (omega arith) (omega arith))
enough rest digit zero l (suc a) b hk hl = absurd (omega arith)
enough rest digit (suc k) zero (suc a) b hk hl = absurd (omega arith)

pub bit_and_digit : (a b : ℕ) → bit_and a b ≡ 2 * bit_and (a / 2) (b / 2) + min (a % 2) (b % 2)
bit_and_digit zero b = omega (arith, bit_and-bitwise 0 b, bit_and-bitwise 0 (b / 2))
bit_and_digit (suc a) b = omega (
  arith,
  bit_and-bitwise (suc a) b,
  bit_and-bitwise (suc a / 2) (b / 2),
  enough (λ b. 0) min a (suc a / 2) (suc a / 2) (b / 2) (omega arith) (omega arith),
)

pub bit_or_digit : (a b : ℕ) → bit_or a b ≡ 2 * bit_or (a / 2) (b / 2) + max (a % 2) (b % 2)
bit_or_digit zero b = omega (arith, bit_or-bitwise 0 b, bit_or-bitwise 0 (b / 2))
bit_or_digit (suc a) b = omega (
  arith,
  bit_or-bitwise (suc a) b,
  bit_or-bitwise (suc a / 2) (b / 2),
  enough (λ b. b) max a (suc a / 2) (suc a / 2) (b / 2) (omega arith) (omega arith),
)

-- By strong induction: `n` bounds `a`.
bit_and_le_below : (n a b : ℕ) → a ≤ n → bit_and a b ≤ a
bit_and_le_below n zero b h = omega (arith, bit_and-bitwise 0 b)
bit_and_le_below zero (suc a) b h = absurd (omega arith)
bit_and_le_below (suc n) (suc a) b h =
    omega (arith, bit_and_digit (suc a) b, bit_and_le_below n (suc a / 2) (b / 2) (omega arith))

bit_and_le_mask : (n a b : ℕ) → a ≤ n → bit_and a b ≤ b
bit_and_le_mask n zero b h = omega (arith, bit_and-bitwise 0 b)
bit_and_le_mask zero (suc a) b h = absurd (omega arith)
bit_and_le_mask (suc n) (suc a) b h =
    omega (arith, bit_and_digit (suc a) b, bit_and_le_mask n (suc a / 2) (b / 2) (omega arith))

pub bit_and-le-right : (a b : ℕ) → bit_and a b ≤ b
bit_and-le-right a b = bit_and_le_mask a a b (omega arith)

pub bit_and-le : (a b : ℕ) → bit_and a b ≤ a
bit_and-le a b = bit_and_le_below a a b (omega arith)

bit_and_self_below : (n a : ℕ) → a ≤ n → bit_and a a ≡ a
bit_and_self_below n zero h = refl
bit_and_self_below zero (suc a) h = absurd (omega arith)
bit_and_self_below (suc n) (suc a) h =
    omega (arith, bit_and_digit (suc a) (suc a), bit_and_self_below n (suc a / 2) (omega arith))

-- `x & (x - 1)` clears the lowest set bit: of an odd number, the last one,
pub clear_lowest_odd : (m : ℕ) → bit_and (2 * m + 1) (2 * m + 1 - 1) ≡ 2 * m
clear_lowest_odd m =
    let self = bit_and_self_below m m (omega arith) in
    let a : (2 * m + 1) / 2 ≡ m = omega arith in
    let b : (2 * m + 1 - 1) / 2 ≡ m = omega arith in rw (bit_and_digit, a, b, self) (omega arith)

-- and of an even one, that of its half.
pub clear_lowest_even : (m : ℕ) → 0 < m → bit_and (2 * m) (2 * m - 1) ≡ 2 * bit_and m (m - 1)
clear_lowest_even m h =
    let a : 2 * m / 2 ≡ m = omega arith in
    let b : (2 * m - 1) / 2 ≡ m - 1 = omega arith in rw (bit_and_digit, a, b) (omega arith)

-- The `k` lowest bits of a number, the lowest first.
unfoldable pub bits : ℕ → ℕ → List Bool
bits zero x = []
bits (suc k) x = (x % 2 == 1) ∷ bits k (x / 2)

-- The complement of an n-bit number has the opposite bits.
pub bits_complement : (k n x : ℕ) → k ≤ n → x < 2 ^ n → bits k (2 ^ n - 1 - x) ≡ map not (bits k x)
unfolding bits
bits_complement zero n x le h = refl
bits_complement (suc k) zero x le h = absurd (omega arith)
bits_complement (suc k) (suc n) x le h =
    let double = pow-suc 2 n in
    let half : (2 ^ suc n - 1 - x) / 2 ≡ 2 ^ n - 1 - x / 2 = omega (arith, double) in
    ap₂ ◌∷◌ (ground (arith, double))
      (rw half (bits_complement k n (x / 2) (omega arith) (omega (arith, double))))

-- A mask of the `k` lowest bits keeps them.
pub bits_mask : (k x : ℕ) → bits k (bit_and x (2 ^ k - 1)) ≡ bits k x
unfolding bits
bits_mask zero x = refl
bits_mask (suc k) x =
    let double = pow-suc 2 k in
    let positive = one-le-pow k 2 in
    let mask : (2 ^ suc k - 1) / 2 ≡ 2 ^ k - 1 = omega (arith, double, positive) in
    let digit : bit_and x (2 ^ suc k - 1) ≡ 2 * bit_and (x / 2) (2 ^ k - 1) + x % 2 =
      rw (bit_and_digit x (2 ^ suc k - 1), mask) (omega (arith, double, positive)) in
    let low : bit_and x (2 ^ suc k - 1) % 2 ≡ x % 2 = omega (arith, digit) in
    let high : bit_and x (2 ^ suc k - 1) / 2 ≡ bit_and (x / 2) (2 ^ k - 1) = omega (arith, digit) in
    rw (low, high) (ap (◌∷◌ (x % 2 == 1)) (bits_mask k (x / 2)))

pub bit_xor_digit : (a b : ℕ) → bit_xor a b ≡ 2 * bit_xor (a / 2) (b / 2) + differ (a % 2) (b % 2)
bit_xor_digit zero b = omega (arith, bit_xor-bitwise 0 b, bit_xor-bitwise 0 (b / 2))
bit_xor_digit (suc a) b = omega (
  arith,
  bit_xor-bitwise (suc a) b,
  bit_xor-bitwise (suc a / 2) (b / 2),
  enough (λ b. b) differ a (suc a / 2) (suc a / 2) (b / 2) (omega arith) (omega arith),
)

differ_zero : (x : ℕ) → differ x 0 ≡ x
differ_zero zero = refl
differ_zero (suc x) = refl

-- Flipping the highest bit of a number of `k + 1` bits.
pub bit_xor_top :
    (k m : ℕ) → m < 2 ^ suc k → bit_xor m (2 ^ k) ≡ (if ltb m (2 ^ k) then m + 2 ^ k else m - 2 ^ k)
bit_xor_top zero zero h = refl
bit_xor_top zero (suc zero) h = refl
bit_xor_top zero (suc (suc m)) h = absurd (omega (arith, pow-suc 2 0))
bit_xor_top (suc k) m h =
    let double = pow-suc 2 k in
    let half : 2 ^ suc k / 2 ≡ 2 ^ k = omega (arith, double) in
    let even : 2 ^ suc k % 2 ≡ 0 = omega (arith, double) in
    let digit : bit_xor m (2 ^ suc k) ≡ 2 * bit_xor (m / 2) (2 ^ k) + m % 2 =
      rw (bit_xor_digit, half, even) (rw (differ_zero (m % 2))) in
    ground (arith, double, digit, bit_xor_top k (m / 2) (omega (arith, double, pow-suc 2 (suc k))))
