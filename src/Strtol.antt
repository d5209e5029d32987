-- ===== src/Strtol.antt =====
-- userspace/libraries/libc/src/stdlib/conversion.c: `strtol`, `strtoll`, `strtoul` and `strtoull`. A
-- text is the list of its characters' codes without the terminator; the end pointer is the list of
-- the characters behind it, and the results are words of 64 bits. A base below 0, which `strtol`
-- refuses as it does 1, is left out.
pub mod Scan
pub mod Number
pub mod Clamp
mod Tests
use radish_os.Prelude.{
  ℕ, ◌+◌, ◌-◌, ◌*◌, ◌/◌, ◌%◌, ◌^◌, Bool, true, false, not, ◌&&◌, ◌||◌, Option, none, some, List, [],
  ◌∷◌, ◌==◌, ltb, leb, if◌then◌else◌,
}
use radish_os.Prelude.Words.{u64_mod}
use radish_os.Cash.Text.{is_space, is_digit, is_alpha}

-- `strtol`'s digit: from 'A' on the bit that tells small letters from capitals is cleared, below
-- '0' the difference is negative, and a `char` from 128 on is a negative number
abbrev pub digit_l : ℕ → Option ℕ
digit_l c =
    if leb 128 c
    then none
    else if leb b'A' c
    then some ((c - b'A') % 32 + 10)
    else if leb b'0' c && leb c b'9'
    then some (c - b'0')
    else none

abbrev pub digit_u : ℕ → Option ℕ
digit_u c =
    if is_digit c
    then some (c - b'0')
    else if is_alpha c
    then some (if leb c b'Z' then c - (b'A' - 10) else c - (b'a' - 10))
    else none

abbrev pub below : ℕ → Option ℕ → Bool
below base none = false
below base (some d) = ltb d base

abbrev pub value_or : ℕ → Option ℕ → ℕ
value_or d none = d
value_or d (some v) = v

-- a loop over digits: the number, `overflow` (`any < 0`), whether a digit was seen, and what is left
pub record DigitScan : Type 0 where
  pub n : ℕ
  pub overflow : Bool
  pub any : Bool
  pub rest : List ℕ

-- `n > cutoff || (n == cutoff && c > cutlim)`
abbrev pub too_large : ℕ → ℕ → ℕ → ℕ → Bool
too_large base max n d = ltb (max / base) n || (n == max / base && ltb (max % base) d)

abbrev pub push_digit : ℕ → ℕ → DigitScan → ℕ → List ℕ → DigitScan
push_digit base max scan d rest =
    if scan.overflow || too_large base max scan.n d
    then record { n = scan.n; overflow = true; any = true; rest = rest }
    else record { n = scan.n * base + d; overflow = false; any = true; rest = rest }

-- the loops of `strtol` and `strtoul`, which differ in what a digit is
pub scan_digits : (ℕ → Option ℕ) → ℕ → ℕ → DigitScan → List ℕ → DigitScan
scan_digits digit base max scan [] = scan
scan_digits digit base max scan (c ∷ s) =
    let more = scan_digits digit base max (push_digit base max scan (value_or 0 (digit c)) s) s in
    if below base (digit c) then more else scan

abbrev pub begin : List ℕ → DigitScan
begin s = record { n = 0; overflow = false; any = false; rest = s }

pub skip : List ℕ → List ℕ
skip [] = []
skip (c ∷ s) = if is_space c then skip s else c ∷ s

abbrev pub starts_with : ℕ → List ℕ → Bool
starts_with c [] = false
starts_with c (d ∷ s) = d == c

-- the text behind a sign, and whether it was a minus
abbrev pub sign : List ℕ → Bool × List ℕ
sign [] = (false, [])
sign (c ∷ s) = if c == b'+' then (false, s) else if c == b'-' then (true, s) else (false, c ∷ s)

abbrev pub tail : List ℕ → List ℕ
tail [] = []
tail (c ∷ s) = s

abbrev pub either : ℕ → ℕ → List ℕ → Bool
either c d s = starts_with c s || starts_with d s

-- `strtol`, behind a leading 0: the letter of the base is passed
abbrev pub zero_prefix : ℕ → List ℕ → ℕ × List ℕ
zero_prefix base q =
    if (base == 16 || base == 0) && either b'X' b'x' q
    then (16, tail q)
    else if (base == 2 || base == 0) && either b'B' b'b' q
    then (2, tail q)
    else if (base == 8 || base == 0) && either b'O' b'o' q
    then (8, tail q)
    else (if base == 0 then 8 else base, q)

-- the base, where the digits begin, and the end pointer if no digit follows
abbrev pub prefix_l : ℕ → List ℕ → List ℕ → ℕ × List ℕ × List ℕ
prefix_l base str p =
    let zero = zero_prefix base (tail p) in
    if starts_with b'0' p
    then (zero.0, zero.1, tail p)
    else (if base == 0 then 10 else base, p, str)

-- the value as a word, where the text ends, and whether `errno` is set to ERANGE
pub record Converted : Type 0 where
  pub value : ℕ
  pub end : List ℕ
  pub range : Bool

abbrev pub long_max : ℕ
long_max = 2 ^ 63 - 1

abbrev pub long_min : ℕ
long_min = 2 ^ 63

abbrev pub negated : Bool → ℕ → ℕ
negated is_neg n = if is_neg then (u64_mod - n) % u64_mod else n

abbrev pub limit_l : Bool → ℕ
limit_l is_neg = if is_neg then long_min else long_max

abbrev pub finish_l : Bool → DigitScan → Converted
finish_l is_neg scan =
    if scan.overflow
    then record { value = limit_l is_neg; end = scan.rest; range = true }
    else record { value = negated is_neg scan.n; end = scan.rest; range = false }

-- A base out of range gives 0 and leaves the end pointer: there is no `Converted`.
pub strtol : List ℕ → ℕ → Option Converted
unfolding scan_digits skip
strtol str base =
    let signed = sign (skip str) in
    let start = prefix_l base str signed.1 in
    if base == 1 || ltb 36 base
    then none
    else some
        (finish_l signed.0 (scan_digits digit_l start.0 (limit_l signed.0) (begin start.2) start.1))

-- the same code, on `long long`
abbrev pub strtoll : List ℕ → ℕ → Option Converted
unfolding strtol
strtoll = strtol

-- `strtoul`: two characters of a prefix are passed, and a 0 decides for base 8 but stays
abbrev pub prefix_u : ℕ → List ℕ → ℕ × List ℕ
prefix_u base s =
    if (base == 0 || base == 16) && starts_with b'0' s && either b'x' b'X' (tail s)
    then (16, tail (tail s))
    else (if base == 0 then if starts_with b'0' s then 8 else 10 else base, s)

abbrev pub ulong_max : ℕ
ulong_max = 2 ^ 64 - 1

abbrev pub finish_u : Bool → DigitScan → Converted
finish_u neg scan =
    if scan.overflow
    then record { value = ulong_max; end = scan.rest; range = true }
    else record { value = negated neg scan.n; end = scan.rest; range = false }

-- the sign of `strtoul` is that of `strtol`; without a digit the end pointer is the whole text
pub strtoul : List ℕ → ℕ → Converted
unfolding scan_digits skip
strtoul nptr base =
    let signed = sign (skip nptr) in
    let start = prefix_u base signed.1 in
    finish_u signed.0 (scan_digits digit_u start.0 ulong_max (begin nptr) start.1)

abbrev pub strtoull : List ℕ → ℕ → Converted
unfolding strtoul
strtoull = strtoul
