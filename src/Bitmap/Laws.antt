-- ===== src/Bitmap/Laws.antt =====
-- A bitmap of N bits behaves as a set of the numbers below N.
use radish_os.Prelude.{
  ℕ, zero, suc, ◌-◌, ◌*◌, ◌/◌, ◌%◌, ◌^◌, ◌≤◌, ◌<◌, ◌≡◌, true, false, not, ◌&&◌, ltb, ◌==◌,
  if◌then◌else◌, arith, bit_and, bit_or, length, length-set, length-replicate, get_or-set,
}
use native.Mathlib.Nat.{pow-le-pow_right}
use radish_os.Prelude.Bits.{
  digit, digit-le-one, digit-bit_or, digit-bit_and, digit-pow, digit-complement, bit_and-pow,
  pow-pos,
}
use radish_os.Bitmap.{StaticBitmap, word_count, init, word, set, clear, test}

-- the array has the declared number of words
pub record IsSized (n : ℕ) (b : StaticBitmap) : Type 0 where
  pub sized : length b.words ≡ word_count n

pub init-IsSized : (n : ℕ) → IsSized n (init n)
unfolding init
init-IsSized n = record { sized = length-replicate _ 0 }

pub set-IsSized : (n : ℕ) {b : StaticBitmap} (i : ℕ) → IsSized n b → IsSized n (set n b i)
unfolding set
set-IsSized n {b} i v =
    ground (arith, length-set b.words (i / 64) (bit_or (word b i) (2 ^ (i % 64))))

pub clear-IsSized : (n : ℕ) {b : StaticBitmap} (i : ℕ) → IsSized n b → IsSized n (clear n b i)
unfolding clear
clear-IsSized n {b} i v =
    ground (arith, length-set b.words (i / 64) (bit_and (word b i) (2 ^ 64 - 1 - 2 ^ (i % 64))))

flag_test : (d p : ℕ) → d ≤ 1 → 0 < p → not (d * p == 0) ≡ (d == 1)
flag_test zero p h k = ground arith
flag_test (suc zero) p h k = ground arith
flag_test (suc (suc d)) p h k = absurd (omega arith)

-- The test of a mask is the test of a digit.
mask_test : (w k : ℕ) → not (bit_and w (2 ^ k) == 0) ≡ (digit w k == 1)
mask_test w k = rw (bit_and-pow w k) (flag_test (digit w k) (2 ^ k) (digit-le-one w k) (pow-pos k))

test-digit :
    (n : ℕ) (b : StaticBitmap) (j : ℕ) → j < n → test n b j ≡ (digit (word b j) (j % 64) == 1)
unfolding test
test-digit n b j h = ground (arith, mask_test (word b j) (j % 64))

index_in_range : (n i : ℕ) → i < n → i / 64 < word_count n
index_in_range n i h = omega arith

set-word :
    (n : ℕ) (b : StaticBitmap) (i j : ℕ)
    → IsSized n b
    → i < n
    → word (set n b i) j ≡ (if i / 64 == j / 64 then bit_or (word b i) (2 ^ (i % 64)) else word b j)
unfolding set
set-word n b i j v h = ground (
  arith,
  index_in_range n i h,
  get_or-set b.words (i / 64) (j / 64) (bit_or (word b i) (2 ^ (i % 64))) 0,
)

clear-word :
    (n : ℕ) (b : StaticBitmap) (i j : ℕ)
    → IsSized n b
    → i < n
    → word (clear n b i) j
      ≡ (if i / 64 == j / 64 then bit_and (word b i) (2 ^ 64 - 1 - 2 ^ (i % 64)) else word b j)
unfolding clear
clear-word n b i j v h = ground (
  arith,
  index_in_range n i h,
  get_or-set b.words (i / 64) (j / 64) (bit_and (word b i) (2 ^ 64 - 1 - 2 ^ (i % 64))) 0,
)

same_word : (b : StaticBitmap) (i j : ℕ) → i / 64 ≡ j / 64 → word b i ≡ word b j
same_word b i j e = rw e

set_digit :
    (w i j : ℕ) → (digit (bit_or w (2 ^ i)) j == 1) ≡ (if i == j then true else digit w j == 1)
set_digit w i j = ground (arith, digit-bit_or w (2 ^ i) j, digit-pow i j, digit-le-one w j)

mask-lt : (i : ℕ) → i < 64 → 2 ^ i < 2 ^ 64
mask-lt i h = omega (arith, pow-le-pow_right {n = 2} (omega arith) {i = i} {j = 63} (omega arith))

clear_digit :
    (w i j : ℕ)
    → i < 64
    → j < 64
    → (digit (bit_and w (2 ^ 64 - 1 - 2 ^ i)) j == 1) ≡ (if i == j then false else digit w j == 1)
clear_digit w i j h k = ground (
  arith,
  digit-bit_and w (2 ^ 64 - 1 - 2 ^ i) j,
  digit-complement 64 (2 ^ i) j (mask-lt i h) k,
  digit-pow i j,
  digit-le-one w j,
)

split_index : (i j : ℕ) → i / 64 ≡ j / 64 → i % 64 ≡ j % 64 → i ≡ j
split_index i j p q = omega arith

test-outside : (n : ℕ) (b : StaticBitmap) (j : ℕ) → n ≤ j → test n b j ≡ false
unfolding test
test-outside n b j h = ground arith

pub test-lt : (n : ℕ) (b : StaticBitmap) (j : ℕ) → test n b j ≡ true → j < n
unfolding test
test-lt n b j h = ground arith

test-set_inside :
    (n : ℕ) (b : StaticBitmap) (i j : ℕ)
    → IsSized n b
    → i < n
    → j < n
    → test n (set n b i) j ≡ (if i == j then true else test n b j)
test-set_inside n b i j v h k =
    rw (test-digit n (set n b i) j k, test-digit n b j k, set-word n b i j v h)
      (ground (arith, set_digit (word b i) (i % 64) (j % 64), same_word b i j, split_index i j))

test-clear_inside :
    (n : ℕ) (b : StaticBitmap) (i j : ℕ)
    → IsSized n b
    → i < n
    → j < n
    → test n (clear n b i) j ≡ (if i == j then false else test n b j)
test-clear_inside n b i j v h k =
    rw (test-digit n (clear n b i) j k, test-digit n b j k, clear-word n b i j v h)
      (ground (
        arith,
        clear_digit (word b i) (i % 64) (j % 64) (omega arith) (omega arith),
        same_word b i j,
        split_index i j,
      ))

set-outside : (n : ℕ) (b : StaticBitmap) (i : ℕ) → n ≤ i → set n b i ≡ b
unfolding set
set-outside n b i h = ground arith

clear-outside : (n : ℕ) (b : StaticBitmap) (i : ℕ) → n ≤ i → clear n b i ≡ b
unfolding clear
clear-outside n b i h = ground arith

-- In a bitmap of N bits `set` adds the bit it names, if that is below N, and changes no other bit.
pub test-set :
    (n : ℕ) (b : StaticBitmap) (i j : ℕ)
    → IsSized n b
    → test n (set n b i) j ≡ (if (i == j) && ltb i n then true else test n b j)
test-set n b i j v = ground (
  arith,
  test-set_inside n b i j v,
  set-outside n b i,
  test-outside n b j,
  test-outside n (set n b i) j,
)

-- In a bitmap of N bits `clear` takes away the bit it names and changes no other bit.
pub test-clear :
    (n : ℕ) (b : StaticBitmap) (i j : ℕ)
    → IsSized n b
    → test n (clear n b i) j ≡ (if i == j then false else test n b j)
test-clear n b i j v = ground (
  arith,
  test-clear_inside n b i j v,
  clear-outside n b i,
  test-outside n b j,
  test-outside n (clear n b i) j,
)
