-- ===== src/Strtol/Scan.antt =====
-- The loops over digits against the number that the digits are, without a bound.
use radish_os.Prelude.{
  ℕ, ◌+◌, ◌*◌, ◌/◌, ◌%◌, ◌≤◌, ◌<◌, ◌≡◌, refl, sym, ap, ◌∙◌, inl, inr, Bool, true, false, ◌||◌,
  Option, none, some, List, [], ◌∷◌, ◌==◌, ltb, if◌then◌else◌, arith, Bool-cases, ==_iff,
}
use native.Mathlib.Nat.{
  div-add-mod', mod-lt, mul-le-mul_right, add-mul, one-mul, le-mul_of_pos_right,
}
use radish_os.Strtol.{DigitScan, below, value_or, too_large, push_digit, scan_digits}

-- the number that `n` and the digits behind it are
unfoldable pub value_from : (ℕ → Option ℕ) → ℕ → ℕ → List ℕ → ℕ
value_from digit base n [] = n
value_from digit base n (c ∷ s) =
    let more = value_from digit base (n * base + value_or 0 (digit c)) s in
    if below base (digit c) then more else n

-- what the digits leave
unfoldable pub behind_digits : (ℕ → Option ℕ) → ℕ → List ℕ → List ℕ
behind_digits digit base [] = []
behind_digits digit base (c ∷ s) =
    if below base (digit c) then behind_digits digit base s else c ∷ s

-- The test with the quotient and the remainder is the test of the product, which would not fit.
too_large_lem :
    (base max n d : ℕ) → 0 < base → d < base → too_large base max n d ≡ ltb max (n * base + d)
too_large_lem base max n d pos lt = elim (Bool-cases (ltb (max / base) n)) [
  | inl above ↦
      let step : (max / base + 1) * base ≤ n * base = mul-le-mul_right base (ground arith) in
      let e = add-mul (max / base) 1 base in
      let f = one-mul base in
      let r = mod-lt max pos in
      let big : ltb max (n * base + d) ≡ true =
        ground (arith, div-add-mod' max base, step, e, f, r) in
      rw (above, big) refl
  | inr other ↦ elim (Bool-cases (n == max / base)) [
    | inl same ↦
        let product : n * base ≡ max / base * base =
          ap (λ (k : ℕ). k * base) ((==_iff n (max / base)).0 same) in
        let tests : ltb (max % base) d ≡ ltb max (n * base + d) =
          ground (arith, div-add-mod' max base, product) in
        rw (other, same) tests
    | inr less ↦
        let step : (n + 1) * base ≤ max / base * base =
          mul-le-mul_right base (ground (arith, other, less)) in
        let small : ltb max (n * base + d) ≡ false =
          ground (arith, div-add-mod' max base, step, add-mul n 1 base, one-mul base) in
        rw (other, less, small) refl
  ]
]

value_from-grows :
    (digit : ℕ → Option ℕ) (base n : ℕ) (s : List ℕ) → 0 < base → n ≤ value_from digit base n s
unfolding value_from
value_from-grows digit base n [] pos = omega arith
value_from-grows digit base n (c ∷ s) pos = elim (Bool-cases (below base (digit c))) [
  | inl more ↦
      let next = n * base + value_or 0 (digit c) in
      let e : n ≤ n * base = le-mul_of_pos_right n pos in
      rw more (omega (arith, value_from-grows digit base next s pos, e))
  | inr stop ↦ rw stop (omega arith)
]

-- What the loop leaves where the number without a bound is `v`.
pub record Scanned (max v : ℕ) (r : DigitScan) : Type 0 where
  pub overflow : r.overflow ≡ ltb max v
  pub number : v ≤ max → r.n ≡ v

overflowed :
    (digit : ℕ → Option ℕ) (base max : ℕ) (scan : DigitScan) (s : List ℕ)
    → scan.overflow ≡ true
    → (scan_digits digit base max scan s).overflow ≡ true
unfolding scan_digits
overflowed digit base max scan [] h = h
overflowed digit base max scan (c ∷ s) h = elim (Bool-cases (below base (digit c))) [
  | inl more ↦ rw (more, h) (overflowed digit base max _ s refl)
  | inr stop ↦ rw stop h
]

value_below : (base : ℕ) (o : Option ℕ) → below base o ≡ true → value_or 0 o < base
value_below base none h = absurd (ground (arith, h))
value_below base (some d) h = ground (arith, h)

pub scan_digits-Scanned :
    (digit : ℕ → Option ℕ) (base max n : ℕ) (any : Bool) (rest s : List ℕ)
    → 0 < base
    → n ≤ max
    → Scanned max
        (value_from digit base n s)
        (scan_digits digit base max (record { n = n; overflow = false; any = any; rest = rest }) s)
unfolding scan_digits value_from
scan_digits-Scanned digit base max n any rest [] pos h = record {
  overflow = ground arith;
  number = λ e. refl;
}
scan_digits-Scanned digit base max n any rest (c ∷ s) pos h =
    let d = value_or 0 (digit c) in
    elim (Bool-cases (below base (digit c))) [
      | inl more ↦
          let large = too_large_lem base max n d pos (value_below base (digit c) more) in
          elim (Bool-cases (ltb max (n * base + d))) [
            | inl above ↦
                let grows = value_from-grows digit base (n * base + d) s pos in
                let big : ltb max (value_from digit base (n * base + d) s) ≡ true =
                  ground (arith, grows, above) in
                rw (more, large, above)
                  (record {
                    overflow = overflowed digit base max _ s refl ∙ sym big;
                    number = λ e. ground (arith, e, big);
                  })
            | inr fits ↦
                rw (more, large, fits)
                  (scan_digits-Scanned digit base max (n * base + d) true s s pos
                    (ground (arith, fits)))
          ]
      | inr stop ↦ rw stop (record { overflow = ground arith; number = λ e. refl })
    ]

push_digit-rest :
    (base max : ℕ) (scan : DigitScan) (d : ℕ) (rest : List ℕ)
    → (push_digit base max scan d rest).rest ≡ rest
push_digit-rest base max scan d rest =
    elim (Bool-cases (scan.overflow || too_large base max scan.n d)) [
      | inl large ↦ rw large refl
      | inr fits ↦ rw fits refl
    ]

scan_digits-behind :
    (digit : ℕ → Option ℕ) (base max : ℕ) (scan : DigitScan) (c : ℕ) (s : List ℕ)
    → below base (digit c) ≡ true
    → (scan_digits digit base max scan (c ∷ s)).rest ≡ behind_digits digit base (c ∷ s)
unfolding scan_digits behind_digits
scan_digits-behind digit base max scan c [] h =
    rw h (push_digit-rest base max scan (value_or 0 (digit c)) [])
scan_digits-behind digit base max scan c (d ∷ s) h =
    let next = push_digit base max scan (value_or 0 (digit c)) (d ∷ s) in
    elim (Bool-cases (below base (digit d))) [
      | inl more ↦ rw h (scan_digits-behind digit base max next d s more)
      | inr stop ↦ rw (h, stop) (push_digit-rest base max scan (value_or 0 (digit c)) (d ∷ s))
    ]

-- where a conversion says that it ends: behind the digits, or at `start` if there is no digit
abbrev pub end_of : (ℕ → Option ℕ) → ℕ → List ℕ → List ℕ → List ℕ
end_of digit base start [] = start
end_of digit base start (c ∷ s) =
    if below base (digit c) then behind_digits digit base (c ∷ s) else start

pub scan_digits-rest :
    (digit : ℕ → Option ℕ) (base max : ℕ) (scan : DigitScan) (s : List ℕ)
    → (scan_digits digit base max scan s).rest ≡ end_of digit base scan.rest s
unfolding scan_digits
scan_digits-rest digit base max scan [] = refl
scan_digits-rest digit base max scan (c ∷ s) = elim (Bool-cases (below base (digit c))) [
  | inl more ↦ scan_digits-behind digit base max scan c s more ∙ rw more refl
  | inr stop ↦ rw stop refl
]

pub end_of_self :
    (digit : ℕ → Option ℕ) (base : ℕ) (s : List ℕ)
    → end_of digit base s s ≡ behind_digits digit base s
unfolding behind_digits
end_of_self digit base [] = refl
end_of_self digit base (c ∷ s) = elim (Bool-cases (below base (digit c))) [
  | inl more ↦ rw more refl
  | inr stop ↦ rw stop refl
]
