-- ===== src/Prelude/Count.antt =====
-- How many numbers below a bound fail a test.
use Prim.Native.Nat.{ℕ, zero, suc, ◌+◌, ◌≤◌, ◌<◌}
use mathlib.Core.Path.{◌≡◌, refl}
use mathlib.Core.Logic.{inl, inr}
use mathlib.Core.Bool.{Bool, true, false}
use native.Mathlib.Omega.{arith}
use radish_os.Prelude.Tests.{Bool-cases, ==_iff, ◌==◌, if◌then◌else◌}

abbrev pub count_false : ℕ → (ℕ → Bool) → ℕ
count_false zero f = 0
count_false (suc n) f = (if f n then 0 else 1) + count_false n f

pub count_false-le : (n : ℕ) (f : ℕ → Bool) → count_false n f ≤ n
count_false-le zero f = omega arith
count_false-le (suc n) f = ground (arith, count_false-le n f)

-- `g` and `f` agree below n
pub count_false_congr :
    (n : ℕ) (f g : ℕ → Bool) → ((j : ℕ) → j < n → g j ≡ f j) → count_false n g ≡ count_false n f
count_false_congr zero f g h = refl
count_false_congr (suc n) f g h =
    ground (arith, count_false_congr n f g (λ j k. h j (omega arith)), h n (omega arith))

-- One test turned from false to true is one number less.
pub count_false_turn :
    (n i : ℕ) (f g : ℕ → Bool)
    → i < n
    → f i ≡ false
    → g i ≡ true
    → ((j : ℕ) → j < n → (j == i) ≡ false → g j ≡ f j)
    → count_false n g + 1 ≡ count_false n f
count_false_turn zero i f g lt a b h = absurd (omega arith)
count_false_turn (suc n) i f g lt a b h = elim (Bool-cases (n == i)) [
  | inl same ↦
      let e : n ≡ i = (==_iff n i).0 same in
      rw (e, a, b)
        (omega (arith, count_false_congr i f g (λ j k. h j (omega arith) (ground arith))))
  | inr other ↦
      rw (h n (omega arith) other)
        (omega (arith, count_false_turn n i f g (ground arith) a b (λ j k. h j (omega arith))))
]

-- All tests are true exactly when the count is 0.
pub count_false_zero : (n : ℕ) (f : ℕ → Bool) → ((j : ℕ) → j < n → f j ≡ true) → count_false n f ≡ 0
count_false_zero zero f h = refl
count_false_zero (suc n) f h =
    ground (arith, count_false_zero n f (λ j k. h j (omega arith)), h n (omega arith))

pub count_false_pos : (n i : ℕ) (f : ℕ → Bool) → i < n → f i ≡ false → 0 < count_false n f
count_false_pos zero i f lt a = absurd (omega arith)
count_false_pos (suc n) i f lt a = elim (Bool-cases (n == i)) [
  | inl same ↦ rw ((==_iff n i).0 same, a) (omega arith)
  | inr other ↦ omega (arith, count_false_pos n i f (ground arith) a)
]
