-- ===== src/Cash/Interpreter/Numbers.antt =====
-- The operators on two integers against the numbers that the words stand for.
use radish_os.Prelude.{
  ℕ, zero, suc, ◌/◌, ◌+◌, ◌≤◌, ◌-◌, ◌^◌, ◌<◌, ◌≡◌, ◌≢◌, ◌⊎◌, ==_iff, refl, ap, ◌∷◌, inl, inr, Bool,
  true, false, not, List, [], ◌==◌, ltb, if◌then◌else◌, arith, Bool-cases,
}
use native.Mathlib.Nat.{div-le_self, div-lt_self}
use radish_os.Prelude.Int.{ℤ, pos, negsuc}
use radish_os.Outcome.{Outcome, ok, panic, division_trap}
use radish_os.Cash.Token.{
  TokenType, slash, equal_equal, not_equal, lesser_than, greater_than, lesser_than_equal,
  greater_than_equal,
}
use radish_os.Cash.Word.{int_mod, lt_int, div_int, neg_int, overflows, is_negative}
use radish_os.Cash.Symbol.{Message, division_by_zero}
use radish_os.Cash.Value.{EvalValue, null_value, int_value, bool_value, to_int}
use radish_os.Cash.Interpreter.{binary}

-- the number of a word of 32 bits
abbrev pub number : ℕ → ℤ
number w = if ltb w (2 ^ 31) then pos w else negsuc (2 ^ 32 - 1 - w)

abbrev pub less : ℤ → ℤ → Bool
less (pos a) (pos b) = ltb a b
less (pos a) (negsuc b) = false
less (negsuc a) (pos b) = true
less (negsuc a) (negsuc b) = ltb b a

abbrev pub same : ℤ → ℤ → Bool
same (pos a) (pos b) = a == b
same (pos a) (negsuc b) = false
same (negsuc a) (pos b) = false
same (negsuc a) (negsuc b) = a == b

lt_int-less : (l r : ℕ) → l < int_mod → r < int_mod → lt_int l r ≡ less (number l) (number r)
lt_int-less l r h k = elim (Bool-cases (ltb l (2 ^ 31))) [
  | inl a ↦ elim (Bool-cases (ltb r (2 ^ 31))) [
    | inl b ↦ rw (a, b) (ground (arith, a, b))
    | inr b ↦ rw (a, b) (ground (arith, a, b, k))
  ]
  | inr a ↦ elim (Bool-cases (ltb r (2 ^ 31))) [
    | inl b ↦ rw (a, b) (ground (arith, a, b, h))
    | inr b ↦ rw (a, b) (ground (arith, a, b, h, k))
  ]
]

equal-same : (l r : ℕ) → l < int_mod → r < int_mod → (l == r) ≡ same (number l) (number r)
equal-same l r h k = elim (Bool-cases (ltb l (2 ^ 31))) [
  | inl a ↦ elim (Bool-cases (ltb r (2 ^ 31))) [
    | inl b ↦ rw (a, b) refl
    | inr b ↦ rw (a, b) (ground (arith, a, b, k))
  ]
  | inr a ↦ elim (Bool-cases (ltb r (2 ^ 31))) [
    | inl b ↦ rw (a, b) (ground (arith, a, b, h))
    | inr b ↦ rw (a, b) (ground (arith, a, b, h, k))
  ]
]

abbrev pub Answers : ℕ → TokenType → ℕ → ℕ → Bool → Type 0
Answers garbage op l r b = binary garbage op (int_value l) (int_value r) ≡ ok (bool_value b, [])

-- The six comparisons of two `int`s answer as the order of the signed numbers does.
pub comparisons_lem :
    (garbage l r : ℕ)
    → l < int_mod
    → r < int_mod
    → Answers garbage lesser_than l r (less (number l) (number r))
      × Answers garbage greater_than l r (less (number r) (number l))
      × Answers garbage lesser_than_equal l r (not (less (number r) (number l)))
      × Answers garbage greater_than_equal l r (not (less (number l) (number r)))
      × Answers garbage equal_equal l r (same (number l) (number r))
      × Answers garbage not_equal l r (not (same (number l) (number r)))
unfolding to_int
comparisons_lem garbage l r h k =
    let answer : Bool → Outcome (EvalValue × List Message) = λ b. ok (bool_value b, []) in
    let denied : Bool → Outcome (EvalValue × List Message) = λ b. ok (bool_value (not b), []) in
    (
      ap answer (lt_int-less l r h k),
      ap answer (lt_int-less r l k h),
      ap denied (lt_int-less r l k h),
      ap denied (lt_int-less l r h k),
      ap answer (equal-same l r h k),
      ap denied (equal-same l r h k),
    )

-- division that rounds to zero
abbrev pub negate : ℕ → ℤ
negate zero = pos 0
negate (suc n) = negsuc n

abbrev pub divide : ℤ → ℤ → ℤ
divide (pos a) (pos b) = pos (a / b)
divide (pos a) (negsuc b) = negate (a / (b + 1))
divide (negsuc a) (pos b) = negate ((a + 1) / b)
divide (negsuc a) (negsuc b) = pos ((a + 1) / (b + 1))

negate-number : (q : ℕ) → q ≤ 2 ^ 31 → number (neg_int q) ≡ negate q
negate-number zero h = refl
negate-number (suc q) h =
    let below : ltb (neg_int (suc q)) (2 ^ 31) ≡ false = ground (arith, h) in
    let back : 2 ^ 32 - 1 - neg_int (suc q) ≡ q = omega (arith, h) in rw (below, back) refl

positive-number : (q : ℕ) → q < 2 ^ 31 → number q ≡ pos q
positive-number q h = let below : ltb q (2 ^ 31) ≡ true = ground (arith, h) in rw below refl

magnitude_step : (w : ℕ) → w < int_mod → 2 ^ 32 - 1 - w + 1 ≡ int_mod - w
magnitude_step w h = omega (arith, h)

-- the quotient of two negative numbers fits, where it is not that of the least number and -1
negative_fits :
    (l r : ℕ)
    → ltb l (2 ^ 31) ≡ false
    → l < int_mod
    → r < int_mod
    → overflows l r ≡ false
    → (int_mod - l) / (int_mod - r) < 2 ^ 31
negative_fits l r a h k fits = elim (Bool-cases (r == int_mod - 1)) [
  | inl least ↦
      let bound = div-le_self (int_mod - l) (int_mod - r) in
      let more : int_mod - l < 2 ^ 31 = ground (arith, a, fits, least) in omega (arith, bound, more)
  | inr other ↦
      let bound =
        div-lt_self {n = int_mod - l} {k = int_mod - r} (omega (arith, h))
          (ground (arith, other, k)) in
      let most : int_mod - l ≤ 2 ^ 31 = ground (arith, a) in omega (arith, bound, most)
]

div_int-divide :
    (l r : ℕ)
    → l < int_mod
    → r < int_mod
    → overflows l r ≡ false
    → number (div_int l r) ≡ divide (number l) (number r)
div_int-divide l r h k fits = elim (Bool-cases (ltb l (2 ^ 31))) [
  | inl a ↦
      let positive : is_negative l ≡ false = ground (arith, a) in
      elim (Bool-cases (ltb r (2 ^ 31))) [
        | inl b ↦
            let positive' : is_negative r ≡ false = ground (arith, b) in
            let bound = div-le_self l r in
            rw (a, b, positive, positive') (positive-number (l / r) (ground (arith, bound, a)))
        | inr b ↦
            let negative : is_negative r ≡ true = ground (arith, b) in
            let bound = div-le_self l (int_mod - r) in
            rw (a, b, positive, negative, magnitude_step r k)
              (negate-number (l / (int_mod - r)) (ground (arith, bound, a)))
      ]
  | inr a ↦
      let negative : is_negative l ≡ true = ground (arith, a) in
      elim (Bool-cases (ltb r (2 ^ 31))) [
        | inl b ↦
            let positive : is_negative r ≡ false = ground (arith, b) in
            let bound = div-le_self (int_mod - l) r in
            rw (a, b, negative, positive, magnitude_step l h)
              (negate-number ((int_mod - l) / r) (ground (arith, bound, a)))
        | inr b ↦
            let negative' : is_negative r ≡ true = ground (arith, b) in
            rw (a, b, negative, negative', magnitude_step l h, magnitude_step r k)
              (positive-number ((int_mod - l) / (int_mod - r)) (negative_fits l r a h k fits))
      ]
]

-- The quotient of two `int`s: by 0 it is null and a message is printed; of the least `int` and -1 it
-- stops the shell; else it is the quotient of the signed numbers, rounded to zero.
pub quotient_lem :
    (garbage l r : ℕ)
    → l < int_mod
    → r < int_mod
    → ((r ≡ 0)
        × (binary garbage slash (int_value l) (int_value r)
            ≡ ok (null_value, division_by_zero l ∷ [])))
      ⊎ ((number l ≡ negsuc (2 ^ 31 - 1))
          × (number r ≡ negsuc 0)
          × (binary garbage slash (int_value l) (int_value r) ≡ panic division_trap))
      ⊎ ((w : ℕ) × (number w ≡ divide (number l) (number r))
          × (r ≢ 0)
          × (binary garbage slash (int_value l) (int_value r) ≡ ok (int_value w, [])))
unfolding to_int
quotient_lem garbage l r h k = elim (Bool-cases (r == 0)) [
  | inl nothing ↦ inl ((==_iff r 0).0 nothing, rw nothing refl)
  | inr something ↦ elim (Bool-cases (overflows l r)) [
    | inl trap ↦
        let least : l ≡ 2 ^ 31 = ground (arith, trap) in
        let minus_one : r ≡ 2 ^ 32 - 1 = ground (arith, trap) in
        inr (inl (ap number least, ap number minus_one, rw (something, trap) refl))
    | inr fits ↦ inr (
        inr (
          div_int l r,
          div_int-divide l r h k fits,
          λ e. ground (arith, e, something),
          rw (something, fits) refl,
        ))
  ]
]
