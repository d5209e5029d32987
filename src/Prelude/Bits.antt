-- ===== src/Prelude/Bits.antt =====
-- Single binary digits of a number under the bit operations.
use Prim.Native.Nat.{
  ℕ, zero, suc, ◌+◌, ◌-◌, ◌*◌, ◌/◌, ◌%◌, ◌^◌, ◌≤◌, ◌<◌, min, max, bit_and, bit_or, digits, bitwise,
  bit_and-bitwise, bit_or-bitwise,
}
use mathlib.Core.Path.{◌≡◌, refl, ap, ◌∙◌}
use mathlib.Core.Logic.{◌⊎◌, inl, inr}
use native.Mathlib.Nat.{le_refl, pow-suc}
use native.Mathlib.Omega.{arith}
use radish_os.Prelude.Tests.{◌==◌, ltb, if◌then◌else◌, Bool-cases}

up_to : (x n : ℕ) → x ≤ suc n → (x ≤ n) ⊎ (x ≡ suc n)
up_to x n h = elim (Bool-cases (ltb n x)) [
  | inl above ↦ inr (ground arith)
  | inr below ↦ inl (ground arith)
]

-- `bit_and` and `bit_or` compute digit by digit on fuel; their lowest digit, without the fuel.
module _ (at_end : ℕ → ℕ) (op : ℕ → ℕ → ℕ) where
  one_more : (fuel x y : ℕ) → x ≤ fuel → digits at_end op (suc fuel) x y ≡ digits at_end op fuel x y
  one_more fuel zero y h = no_digits fuel
    where
      no_digits : (k : ℕ) → digits at_end op (suc k) zero y ≡ digits at_end op k zero y
      no_digits zero = refl
      no_digits (suc k) = refl
  one_more zero (suc x) y h = absurd (omega arith)
  one_more (suc fuel) (suc x) y h =
      ap (λ (t : ℕ). t * 2 + op (suc x % 2) (y % 2))
        (one_more fuel (suc x / 2) (y / 2) (omega arith))

  enough : (fuel x y : ℕ) → x ≤ fuel → digits at_end op fuel x y ≡ bitwise at_end op x y
  enough zero x y h = rw (zero_le x h) refl
    where
      zero_le : (k : ℕ) → k ≤ 0 → k ≡ 0
      zero_le k le = omega arith
  enough (suc fuel) x y h = elim (up_to x fuel h) [
    | inl below ↦ one_more fuel x y below ∙ enough fuel x y below
    | inr same ↦ rw same refl
  ]

  lowest_digit :
      (x y : ℕ)
      → 0 < x
      → bitwise at_end op x y ≡ bitwise at_end op (x / 2) (y / 2) * 2 + op (x % 2) (y % 2)
  lowest_digit zero y pos = absurd (omega arith)
  lowest_digit (suc x) y pos =
      ap (λ (t : ℕ). t * 2 + op (suc x % 2) (y % 2)) (enough x (suc x / 2) (y / 2) (omega arith))

zero-bit_or : (y : ℕ) → bit_or 0 y ≡ y
zero-bit_or y = rw bit_or-bitwise refl

zero-bit_and : (y : ℕ) → bit_and 0 y ≡ 0
zero-bit_and y = rw bit_and-bitwise refl

bit_or_step : (x y : ℕ) → bit_or x y ≡ bit_or (x / 2) (y / 2) * 2 + max (x % 2) (y % 2)
bit_or_step zero y =
    let half : bit_or (0 / 2) (y / 2) ≡ y / 2 = zero-bit_or (y / 2) in
    omega (arith, zero-bit_or y, half)
bit_or_step (suc x) y = simp bit_or-bitwise (lowest_digit (λ t. t) max (suc x) y (omega arith))

bit_and_step : (x y : ℕ) → bit_and x y ≡ bit_and (x / 2) (y / 2) * 2 + min (x % 2) (y % 2)
bit_and_step zero y =
    let half : bit_and (0 / 2) (y / 2) ≡ 0 = zero-bit_and (y / 2) in
    omega (arith, zero-bit_and y, half)
bit_and_step (suc x) y = simp bit_and-bitwise (lowest_digit (λ t. 0) min (suc x) y (omega arith))

-- Digit k of a number, the lowest first.
unfoldable pub digit : ℕ → ℕ → ℕ
digit a zero = a % 2
digit a (suc k) = digit (a / 2) k

pub digit-le-one : (a k : ℕ) → digit a k ≤ 1
unfolding digit
digit-le-one a zero = omega arith
digit-le-one a (suc k) = digit-le-one (a / 2) k

halves : (a b c d : ℕ) → a ≡ b * 2 + c → c < 2 → (a / 2 ≡ b) × (a % 2 ≡ c)
halves a b c d h k = omega arith

pub digit-bit_or : (a b k : ℕ) → digit (bit_or a b) k ≡ max (digit a k) (digit b k)
unfolding digit
digit-bit_or a b zero = omega (arith, bit_or_step a b)
digit-bit_or a b (suc k) =
    let e : bit_or a b / 2 ≡ bit_or (a / 2) (b / 2) = omega (arith, bit_or_step a b) in
    rw e (digit-bit_or (a / 2) (b / 2) k)

pub digit-bit_and : (a b k : ℕ) → digit (bit_and a b) k ≡ min (digit a k) (digit b k)
unfolding digit
digit-bit_and a b zero = omega (arith, bit_and_step a b)
digit-bit_and a b (suc k) =
    let e : bit_and a b / 2 ≡ bit_and (a / 2) (b / 2) = omega (arith, bit_and_step a b) in
    rw e (digit-bit_and (a / 2) (b / 2) k)

zero-digit : (k : ℕ) → digit 0 k ≡ 0
unfolding digit
zero-digit zero = refl
zero-digit (suc k) = zero-digit k

double_half : (k : ℕ) → (2 ^ suc k / 2 ≡ 2 ^ k) × (2 ^ suc k % 2 ≡ 0)
double_half k = omega (arith, pow-suc 2 k)

-- A power of two has one digit.
pub digit-pow : (k j : ℕ) → digit (2 ^ k) j ≡ (if k == j then 1 else 0)
unfolding digit
digit-pow zero zero = refl
digit-pow zero (suc j) = ground (arith, zero-digit j)
digit-pow (suc k) zero = ground (arith, double_half k)
digit-pow (suc k) (suc j) = rw (double_half k).0 (ground (arith, digit-pow k j))

-- The digits of 2 ^ n - 1 - a, below the n-th, are those of `a` turned over.
pub digit-complement : (n a j : ℕ) → a < 2 ^ n → j < n → digit (2 ^ n - 1 - a) j ≡ 1 - digit a j
unfolding digit
digit-complement zero a j h k = absurd (omega arith)
digit-complement (suc n) a zero h k = omega (arith, pow-suc 2 n)
digit-complement (suc n) a (suc j) h k =
    let e : (2 ^ suc n - 1 - a) / 2 ≡ 2 ^ n - 1 - a / 2 = omega (arith, pow-suc 2 n) in
    rw e (digit-complement n (a / 2) j (omega (arith, pow-suc 2 n)) (omega arith))

bit_and-zero_below : (n a : ℕ) → a ≤ n → bit_and a 0 ≡ 0
bit_and-zero_below n zero h = refl
bit_and-zero_below zero (suc a) h = absurd (omega arith)
bit_and-zero_below (suc n) (suc a) h =
    omega (arith, bit_and_step (suc a) 0, bit_and-zero_below n (suc a / 2) (omega arith))

bit_and_pow_step : (a k : ℕ) → bit_and a (2 ^ suc k) ≡ bit_and (a / 2) (2 ^ k) * 2
bit_and_pow_step a k =
    bit_and_step a (2 ^ suc k) ∙ rw ((double_half k).0, (double_half k).1) (omega arith)

-- Masking with a power of two leaves that digit alone.
pub bit_and-pow : (a k : ℕ) → bit_and a (2 ^ k) ≡ digit a k * 2 ^ k
unfolding digit
bit_and-pow a zero = omega (arith, bit_and_step a 1, bit_and-zero_below (a / 2) (a / 2) (le_refl _))
bit_and-pow a (suc k) = omega (
  arith,
  bit_and_pow_step a k,
  bit_and-pow (a / 2) k,
  ap (λ (t : ℕ). digit (a / 2) k * t) (pow-suc 2 k),
)

pub pow-pos : (k : ℕ) → 0 < 2 ^ k
pow-pos zero = omega arith
pow-pos (suc k) = omega (arith, pow-pos k, pow-suc 2 k)
