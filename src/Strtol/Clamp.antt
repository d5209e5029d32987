-- ===== src/Strtol/Clamp.antt =====
-- The conversions against the number that the digits are: it is given, or the nearest that fits.
use radish_os.Prelude.{
  ℕ, ◌+◌, ◌*◌, ◌-◌, ◌^◌, ◌++◌, ◌≤◌, ◌<◌, ◌≡◌, refl, sym, ap, ◌∙◌, inl, inr, Bool, true, false, ◌||◌,
  some, List, [], ◌∷◌, ◌==◌, ltb, if◌then◌else◌, arith, Bool-cases, ==_iff,
}
use radish_os.Strtol.{
  DigitScan, begin, Converted, skip, sign, prefix_l, prefix_u, digit_l, digit_u, scan_digits,
  limit_l, ulong_max, negated, finish_l, finish_u, strtol, strtoul,
}
use radish_os.Strtol.Number.{
  number_from, end_in, greatest, word_of, AllBlank, Begins, Sign, sign_text, is_minus, sign-skip,
  Agree-l, Agree-u, value_from-number, end_of-end,
}
use radish_os.Strtol.Scan.{
  value_from, behind_digits, Scanned, scan_digits-Scanned, end_of, end_of_self, scan_digits-rest,
}

-- What a conversion gives for the number `v` and the greatest magnitude `max`.
abbrev pub clamped : Bool → ℕ → ℕ → ℕ
clamped minus max v = if ltb max v then max else negated minus v

finish_l-clamped :
    (minus : Bool) (v : ℕ) (r : DigitScan)
    → Scanned (limit_l minus) v r
    → ((finish_l minus r).value ≡ clamped minus (limit_l minus) v)
      × ((finish_l minus r).range ≡ ltb (limit_l minus) v)
      × ((finish_l minus r).end ≡ r.rest)
finish_l-clamped minus v r h = elim (Bool-cases (ltb (limit_l minus) v)) [
  | inl above ↦ rw (h.overflow, above) (refl, refl, refl)
  | inr fits ↦
      let e = h.number (ground (arith, fits)) in rw (h.overflow, fits, e) (refl, refl, refl)
]

finish_u-clamped :
    (minus : Bool) (v : ℕ) (r : DigitScan)
    → Scanned ulong_max v r
    → ((finish_u minus r).value ≡ clamped minus ulong_max v)
      × ((finish_u minus r).range ≡ ltb ulong_max v)
      × ((finish_u minus r).end ≡ r.rest)
finish_u-clamped minus v r h = elim (Bool-cases (ltb ulong_max v)) [
  | inl above ↦ rw (h.overflow, above) (refl, refl, refl)
  | inr fits ↦
      let e = h.number (ground (arith, fits)) in rw (h.overflow, fits, e) (refl, refl, refl)
]

-- In a base with no prefix a leading 0 is a digit like the others.
prefix_l-value :
    (base : ℕ) (str p : List ℕ)
    → 0 < base
    → (base == 2) ≡ false
    → (base == 8) ≡ false
    → (base == 16) ≡ false
    → ((prefix_l base str p).0 ≡ base)
      × (value_from digit_l base 0 (prefix_l base str p).1 ≡ value_from digit_l base 0 p)
      × (end_of digit_l base (prefix_l base str p).2 (prefix_l base str p).1
          ≡ end_of digit_l base str p)
unfolding value_from behind_digits
prefix_l-value base str [] pos two eight sixteen =
    let other : (base == 0) ≡ false = ground arith in rw other (refl, refl, refl)
prefix_l-value base str (c ∷ p) pos two eight sixteen =
    let other : (base == 0) ≡ false = ground arith in
    elim (Bool-cases (c == b'0')) [
      | inl nought ↦
          let below_base : ltb 0 base ≡ true = ground arith in
          let next : 0 * base + 0 ≡ 0 = omega arith in
          rw (other, two, eight, sixteen, (==_iff c b'0').0 nought, below_base)
            (
              refl,
              ap (λ (n : ℕ). value_from digit_l base n p) (sym next),
              end_of_self digit_l base p,
            )
      | inr digit ↦ rw (other, digit) (refl, refl, refl)
    ]

strtol-signed :
    (s : List ℕ) (base : ℕ)
    → 2 ≤ base
    → base ≤ 36
    → (base == 2) ≡ false
    → (base == 8) ≡ false
    → (base == 16) ≡ false
    → let signed = sign (skip s) in
      let v = value_from digit_l base 0 signed.1 in
      (r : Converted) × (strtol s base ≡ some r)
      × (r.value ≡ clamped signed.0 (limit_l signed.0) v)
      × (r.range ≡ ltb (limit_l signed.0) v)
      × (r.end ≡ end_of digit_l base s signed.1)
unfolding strtol
strtol-signed s base low high two eight sixteen =
    let signed = sign (skip s) in
    let start = prefix_l base s signed.1 in
    let known = prefix_l-value base s signed.1 (omega arith) two eight sixteen in
    let valid : (base == 1 || ltb 36 base) ≡ false = ground arith in
    let scanned =
      scan_digits-Scanned digit_l start.0 (limit_l signed.0) 0 false start.2 start.1
        (rw known.0 (omega arith)) (omega arith) in
    let number : value_from digit_l start.0 0 start.1 ≡ value_from digit_l base 0 signed.1 =
      ap (λ (b : ℕ). value_from digit_l b 0 start.1) known.0 ∙ known.1 in
    let ending : end_of digit_l start.0 start.2 start.1 ≡ end_of digit_l base s signed.1 =
      ap (λ (b : ℕ). end_of digit_l b start.2 start.1) known.0 ∙ known.2 in
    let last = finish_l-clamped signed.0 _ _ scanned in
    let result =
      finish_l signed.0 (scan_digits digit_l start.0 (limit_l signed.0) (begin start.2) start.1) in
    (
      result,
      rw valid refl,
      last.0 ∙ ap (λ (v : ℕ). clamped signed.0 (limit_l signed.0) v) number,
      last.1 ∙ ap (λ (v : ℕ). ltb (limit_l signed.0) v) number,
      last.2 ∙ scan_digits-rest digit_l start.0 (limit_l signed.0) (begin start.2) start.1 ∙ ending,
    )

strtoul-signed :
    (s : List ℕ) (base : ℕ)
    → 0 < base
    → (base == 16) ≡ false
    → let signed = sign (skip s) in
      let v = value_from digit_u base 0 signed.1 in
      ((strtoul s base).value ≡ clamped signed.0 ulong_max v)
      × ((strtoul s base).range ≡ ltb ulong_max v)
      × ((strtoul s base).end ≡ end_of digit_u base s signed.1)
unfolding strtoul
strtoul-signed s base pos sixteen =
    let plain : prefix_u base (sign (skip s)).1 ≡ (base, (sign (skip s)).1) =
      (let other : (base == 0) ≡ false = ground arith in rw (other, sixteen) refl) in
    let signed = sign (skip s) in
    let scanned =
      scan_digits-Scanned digit_u base ulong_max 0 false s signed.1 pos (ground arith) in
    let last = finish_u-clamped signed.0 _ _ scanned in
    rw plain (last.0, last.1, last.2 ∙ scan_digits-rest digit_u base ulong_max (begin s) signed.1)

-- In a base from 2 to 36 other than 2, 8 and 16, `strtol` passes blanks and a sign and gives the number
-- that the digits behind them are, the letters being digits in either case, negated modulo 2 ^ 64 if
-- the sign is a minus; where its magnitude is above 2 ^ 63 with a minus, or 2 ^ 63 - 1 without, it
-- gives LONG_MIN or LONG_MAX, and in that case only sets `errno`. The end pointer is behind the digits,
-- or the whole text if there is none.
pub strtol_lem :
    (blanks : List ℕ) (sg : Sign) (p : List ℕ) (base : ℕ)
    → AllBlank blanks
    → Begins sg p
    → 2 ≤ base
    → base ≤ 36
    → (base == 2) ≡ false
    → (base == 8) ≡ false
    → (base == 16) ≡ false
    → let text = blanks ++ (sign_text sg ++ p) in
      let max = greatest (is_minus sg) in
      let v = number_from base 0 p in
      (r : Converted) × (strtol text base ≡ some r)
      × (r.value ≡ word_of (is_minus sg) max v)
      × (r.range ≡ ltb max v)
      × (r.end ≡ end_in base text p)
strtol_lem blanks sg p base h k low high two eight sixteen =
    let text = blanks ++ (sign_text sg ++ p) in
    let signed = sign-skip blanks sg p h k in
    let number = value_from-number base digit_l 0 p (Agree-l base high) in
    let ending = end_of-end base digit_l text p (Agree-l base high) in
    let (r, e, value, range, end) = strtol-signed text base low high two eight sixteen in
    (
      r,
      e,
      value
          ∙ ap (λ (q : Bool × List ℕ). clamped q.0 (limit_l q.0) (value_from digit_l base 0 q.1))
              signed
          ∙ ap (λ (v : ℕ). word_of (is_minus sg) (greatest (is_minus sg)) v) number,
      range
          ∙ ap (λ (q : Bool × List ℕ). ltb (limit_l q.0) (value_from digit_l base 0 q.1)) signed
          ∙ ap (λ (v : ℕ). ltb (greatest (is_minus sg)) v) number,
      end ∙ ap (λ (q : Bool × List ℕ). end_of digit_l base text q.1) signed ∙ ending,
    )

-- In a base above 0 other than 16, `strtoul` passes blanks and a sign and gives the number that the
-- digits behind them are, the letters being digits in either case, negated modulo 2 ^ 64 if the sign
-- is a minus; where it is above 2 ^ 64 - 1 it gives ULONG_MAX, and in that case only sets `errno`.
-- The end pointer is behind the digits, or the whole text if there is none.
pub strtoul_lem :
    (blanks : List ℕ) (sg : Sign) (p : List ℕ) (base : ℕ)
    → AllBlank blanks
    → Begins sg p
    → 0 < base
    → (base == 16) ≡ false
    → let text = blanks ++ (sign_text sg ++ p) in
      let max = 2 ^ 64 - 1 in
      let v = number_from base 0 p in
      ((strtoul text base).value ≡ word_of (is_minus sg) max v)
      × ((strtoul text base).range ≡ ltb max v)
      × ((strtoul text base).end ≡ end_in base text p)
strtoul_lem blanks sg p base h k pos sixteen =
    let text = blanks ++ (sign_text sg ++ p) in
    let signed = sign-skip blanks sg p h k in
    let number = value_from-number base digit_u 0 p (Agree-u base) in
    let ending = end_of-end base digit_u text p (Agree-u base) in
    let (value, range, end) = strtoul-signed text base pos sixteen in
    (
      value
          ∙ ap (λ (q : Bool × List ℕ). clamped q.0 ulong_max (value_from digit_u base 0 q.1)) signed
          ∙ ap (λ (v : ℕ). word_of (is_minus sg) ulong_max v) number,
      range
          ∙ ap (λ (q : Bool × List ℕ). ltb ulong_max (value_from digit_u base 0 q.1)) signed
          ∙ ap (λ (v : ℕ). ltb ulong_max v) number,
      end ∙ ap (λ (q : Bool × List ℕ). end_of digit_u base text q.1) signed ∙ ending,
    )
