-- ===== src/Strtol/Number.antt =====
-- What a number in a text is, said without the code: blanks, a sign and digits.
use radish_os.Prelude.{
  ℕ, ◌+◌, ◌-◌, ◌%◌, ◌*◌, ◌^◌, ◌≤◌, ◌<◌, ◌≡◌, ◌≢◌, refl, ◌⊎◌, inl, inr, Bool, true, false, ◌&&◌,
  Option, List, [], ◌∷◌, ◌++◌, ◌==◌, ltb, leb, if◌then◌else◌, arith, Bool-cases,
}
use radish_os.Cash.Text.{is_space}
use radish_os.Strtol.{below, value_or, digit_l, digit_u, skip, sign}
use radish_os.Strtol.Scan.{value_from, behind_digits, end_of}

-- the value of a digit, in either case; the base for what is no digit
abbrev pub digit_value : ℕ → ℕ → ℕ
digit_value base c =
    if leb 48 c && leb c 57
    then c - 48
    else if leb 65 c && leb c 90
    then c - 55
    else if leb 97 c && leb c 122
    then c - 87
    else base

-- the number that the digits at the start of a text are, behind those that make `n`
unfoldable pub number_from : ℕ → ℕ → List ℕ → ℕ
number_from base n [] = n
number_from base n (c ∷ s) =
    let rest = number_from base (n * base + digit_value base c) s in
    if ltb (digit_value base c) base then rest else n

-- the text behind its digits
unfoldable pub without_digits : ℕ → List ℕ → List ℕ
without_digits base [] = []
without_digits base (c ∷ s) = if ltb (digit_value base c) base then without_digits base s else c ∷ s

-- where a conversion ends: behind the digits, or at the whole text if there is none
abbrev pub end_in : ℕ → List ℕ → List ℕ → List ℕ
end_in base text [] = text
end_in base text (c ∷ s) =
    if ltb (digit_value base c) base then without_digits base (c ∷ s) else text

-- the greatest magnitude of a `long`
abbrev pub greatest : Bool → ℕ
greatest minus = if minus then 2 ^ 63 else 2 ^ 63 - 1

-- the word of 64 bits for a number and its sign, or the greatest magnitude
abbrev pub word_of : Bool → ℕ → ℕ → ℕ
word_of minus max v = if ltb max v then max else if minus then (2 ^ 64 - v) % 2 ^ 64 else v

-- a blank, a tab, a line feed, a vertical tab, a form feed or a carriage return
abbrev pub IsBlank : ℕ → Type 0
IsBlank c = (c ≡ 32) ⊎ ((9 ≤ c) × (c ≤ 13))

abbrev pub AllBlank : List ℕ → Type 0
AllBlank [] = Unit {0}
AllBlank (c ∷ s) = IsBlank c × AllBlank s

pub data Sign : Type 0 where
  unsigned plus_sign minus_sign : Sign

abbrev pub sign_text : Sign → List ℕ
sign_text unsigned = []
sign_text plus_sign = b'+' ∷ []
sign_text minus_sign = b'-' ∷ []

abbrev pub is_minus : Sign → Bool
is_minus unsigned = false
is_minus plus_sign = false
is_minus minus_sign = true

-- no blank and no sign, where the text has no sign, can be taken for what stands before the digits
abbrev pub Begins : Sign → List ℕ → Type 0
Begins unsigned [] = Unit {0}
Begins unsigned (c ∷ s) = (c ≢ 32) × ((c < 9) ⊎ (13 < c)) × (c ≢ b'+') × (c ≢ b'-')
Begins plus_sign s = Unit {0}
Begins minus_sign s = Unit {0}

-- A way to tell digits has them all right in a base.
pub record Agree (base : ℕ) (f : ℕ → Option ℕ) : Type 0 where
  pub tests : (c : ℕ) → below base (f c) ≡ ltb (digit_value base c) base
  pub values :
      (c : ℕ) → ltb (digit_value base c) base ≡ true → value_or 0 (f c) ≡ digit_value base c

pub Agree-l : (base : ℕ) → base ≤ 36 → Agree base digit_l
Agree-l base h = record { tests = λ c. ground (arith, h); values = λ c k. ground (arith, h, k) }

pub Agree-u : (base : ℕ) → Agree base digit_u
Agree-u base = record { tests = λ c. ground arith; values = λ c k. ground (arith, k) }

blank-is_space : (c : ℕ) → IsBlank c → is_space c ≡ true
blank-is_space c h = ground (arith, h)

other-is_space : (c : ℕ) → c ≢ 32 → (c < 9) ⊎ (13 < c) → is_space c ≡ false
other-is_space c h k = ground (arith, h, k)

skip-blanks : (blanks s : List ℕ) → AllBlank blanks → skip (blanks ++ s) ≡ skip s
unfolding skip
skip-blanks [] s h = refl
skip-blanks (c ∷ blanks) s h = rw (blank-is_space c h.0) (skip-blanks blanks s h.1)

signed_rest :
    (sg : Sign) (p : List ℕ) → Begins sg p → sign (skip (sign_text sg ++ p)) ≡ (is_minus sg, p)
unfolding skip
signed_rest unsigned [] h = refl
signed_rest unsigned (c ∷ p) h =
    let plus : (c == b'+') ≡ false = ground (arith, h.2) in
    let minus : (c == b'-') ≡ false = ground (arith, h.3) in
    rw (other-is_space c h.0 h.1, plus, minus) refl
signed_rest plus_sign p h = refl
signed_rest minus_sign p h = refl

-- Blanks and a sign are passed.
pub sign-skip :
    (blanks : List ℕ) (sg : Sign) (p : List ℕ)
    → AllBlank blanks
    → Begins sg p
    → sign (skip (blanks ++ (sign_text sg ++ p))) ≡ (is_minus sg, p)
sign-skip blanks sg p h k = rw (skip-blanks blanks (sign_text sg ++ p) h) (signed_rest sg p k)

pub value_from-number :
    (base : ℕ) (f : ℕ → Option ℕ) (n : ℕ) (s : List ℕ)
    → Agree base f
    → value_from f base n s ≡ number_from base n s
unfolding value_from number_from
value_from-number base f n [] a = refl
value_from-number base f n (c ∷ s) a = elim (Bool-cases (ltb (digit_value base c) base)) [
  | inl more ↦
      rw (a.tests c, more, a.values c more)
        (value_from-number base f (n * base + digit_value base c) s a)
  | inr stop ↦ rw (a.tests c, stop) refl
]

behind_digits-without :
    (base : ℕ) (f : ℕ → Option ℕ) (s : List ℕ)
    → Agree base f
    → behind_digits f base s ≡ without_digits base s
unfolding behind_digits without_digits
behind_digits-without base f [] a = refl
behind_digits-without base f (c ∷ s) a = rw (a.tests c, behind_digits-without base f s a) refl

pub end_of-end :
    (base : ℕ) (f : ℕ → Option ℕ) (text s : List ℕ)
    → Agree base f
    → end_of f base text s ≡ end_in base text s
end_of-end base f text [] a = refl
end_of-end base f text (c ∷ s) a = rw (a.tests c, behind_digits-without base f (c ∷ s) a) refl
