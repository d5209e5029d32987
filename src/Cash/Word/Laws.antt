-- ===== src/Cash/Word/Laws.antt =====
-- Printing an `int` and reading it back.
use radish_os.Prelude.{
  ℕ, zero, suc, ◌+◌, ◌-◌, ◌*◌, ◌/◌, ◌%◌, ◌^◌, ◌≤◌, ◌<◌, ◌≡◌, ◌≢◌, refl, ap, ◌∙◌, inl, inr, Bool,
  true, false, ◌&&◌, ◌||◌, List, [], ◌∷◌, ◌==◌, ltb, arith, Bool-cases, ==_iff,
}
use native.Mathlib.Nat.{pow-suc}
use radish_os.Outcome.{ok, Ends, ◌>>=◌}
use radish_os.Cash.Text.{is_digit}
use radish_os.Cash.Word.{
  int_mod, int_max, int_min, is_negative, decimal_loop, int_to_string, skip_spaces, atoi_loop,
  atoi_sign, atoi,
}

pub int_to_string-ends : (w : ℕ) → Ends (λ s. Unit {0}) (int_to_string w)
unfolding int_to_string
int_to_string-ends w = elim (Bool-cases (w == 0)) [
  | inl none ↦ rw none tt
  | inr some ↦ elim (Bool-cases (w == int_min)) [
    | inl least ↦ rw (some, least) tt
    | inr other ↦ elim (Bool-cases (is_negative w)) [
      | inl below ↦ rw (some, other, below) tt
      | inr above ↦ rw (some, other, above) tt
    ]
  ]
]

-- one digit that does not overflow
atoi_loop-digit :
    (minus : Bool) (v : ℕ) (str : List ℕ)
    → v ≤ int_max
    → atoi_loop minus (v / 10) ((b'0' + v % 10) ∷ str) ≡ atoi_loop minus v str
unfolding atoi_loop
atoi_loop-digit minus v str h =
    let digit : is_digit (b'0' + v % 10) ≡ true = ground arith in
    let small : (ltb (int_max / 10) (v / 10)
          || (v / 10 == int_max / 10 && ltb 7 (b'0' + v % 10 - b'0')))
        ≡ false =
      ground arith in
    let value : 10 * (v / 10) + (b'0' + v % 10 - b'0') ≡ v = omega arith in
    rw (digit, small, value) refl

atoi_loop-decimal_loop :
    (fuel : ℕ) (minus : Bool) (v : ℕ) (str : List ℕ)
    → v ≤ int_max
    → v < 10 ^ fuel
    → atoi_loop minus 0 (decimal_loop fuel v str) ≡ atoi_loop minus v str
unfolding decimal_loop
atoi_loop-decimal_loop zero minus v str h k = let none : v ≡ 0 = omega arith in rw none refl
atoi_loop-decimal_loop (suc fuel) minus zero str h k = refl
atoi_loop-decimal_loop (suc fuel) minus (suc v) str h k =
    atoi_loop-decimal_loop fuel minus (suc v / 10) ((b'0' + suc v % 10) ∷ str) (omega arith)
      (omega (arith, pow-suc 10 fuel))
    ∙ atoi_loop-digit minus (suc v) str h

abbrev StartsWithDigit : List ℕ → Type 0
StartsWithDigit [] = ⊥
StartsWithDigit (c ∷ s) = is_digit c ≡ true

decimal_loop-StartsWithDigit :
    (fuel v : ℕ) (str : List ℕ) → StartsWithDigit str → StartsWithDigit (decimal_loop fuel v str)
unfolding decimal_loop
decimal_loop-StartsWithDigit zero v str h = h
decimal_loop-StartsWithDigit (suc fuel) zero str h = h
decimal_loop-StartsWithDigit (suc fuel) (suc v) str h =
    decimal_loop-StartsWithDigit fuel (suc v / 10) _ (ground arith)

atoi-digits : (s : List ℕ) → StartsWithDigit s → atoi s ≡ atoi_loop false 0 s
unfolding atoi skip_spaces atoi_sign
atoi-digits [] h = absurd h
atoi-digits (c ∷ s) h = ground (arith, h)

positive : (w : ℕ) → 0 < w → w ≤ int_max → atoi (decimal_loop 10 w []) ≡ w
unfolding decimal_loop atoi_loop
positive zero h k = absurd (omega arith)
positive (suc w) h k =
    atoi-digits (decimal_loop 10 (suc w) [])
      (decimal_loop-StartsWithDigit 9 (suc w / 10) _ (ground arith))
    ∙ atoi_loop-decimal_loop 10 false (suc w) [] k (omega arith)

negative : (w : ℕ) → w < int_mod → int_min < w → atoi (b'-' ∷ decimal_loop 10 (int_mod - w) []) ≡ w
unfolding atoi skip_spaces atoi_sign atoi_loop
negative w h k =
    atoi_loop-decimal_loop 10 true (int_mod - w) [] (omega arith) (omega arith) ∙ omega arith

zero_text : atoi (b'0' ∷ []) ≡ 0
unfolding atoi skip_spaces atoi_sign atoi_loop
zero_text = refl

-- Every `int` but the least is printed, and `atoi` reads the text back as the same `int`.
pub atoi-int_to_string :
    (w : ℕ) → w < int_mod → w ≢ int_min → (int_to_string w >>= λ s. ok (atoi s)) ≡ ok w
unfolding int_to_string
atoi-int_to_string w h k = elim (Bool-cases (w == 0)) [
  | inl none ↦ rw ((==_iff w 0).0 none) (ap ok zero_text)
  | inr some ↦ elim (Bool-cases (w == int_min)) [
    | inl least ↦ absurd (k ((==_iff w int_min).0 least))
    | inr other ↦ elim (Bool-cases (is_negative w)) [
      | inl below ↦ rw (some, other, below, negative w h (ground arith)) refl
      | inr above ↦ rw (some, other, above, positive w (ground arith) (ground arith)) refl
    ]
  ]
]
