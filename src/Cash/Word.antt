-- ===== src/Cash/Word.antt =====
-- The shell's `int`, a word of 32 bits in two's complement, its operations, and its conversion from
-- and to decimal: userspace/libraries/libc/src/stdlib/conversion.c (`atoi`) and
-- userspace/libraries/melon/include/conversion.hpp (`intToString`).
pub mod Laws
use Prim.Native.Nat.{bit_xor}
use radish_os.Prelude.{
  ℕ, zero, suc, ◌+◌, ◌-◌, ◌*◌, ◌/◌, ◌%◌, ◌^◌, Bool, true, false, not, ◌&&◌, ◌||◌, List, [], ◌∷◌,
  ◌==◌, ltb, leb, if◌then◌else◌,
}
use radish_os.Outcome.{Outcome, ok, panic, index_out_of_range}
use radish_os.Cash.Text.{is_digit}

abbrev pub int_mod : ℕ
int_mod = 2 ^ 32

abbrev pub int_max : ℕ
int_max = 2 ^ 31 - 1

abbrev pub int_min : ℕ
int_min = 2 ^ 31

abbrev pub is_negative : ℕ → Bool
is_negative w = leb int_min w

abbrev pub neg_int : ℕ → ℕ
neg_int w = (int_mod - w) % int_mod

abbrev pub add_int : ℕ → ℕ → ℕ
add_int a b = (a + b) % int_mod

abbrev pub sub_int : ℕ → ℕ → ℕ
sub_int a b = (a + int_mod - b) % int_mod

abbrev pub mul_int : ℕ → ℕ → ℕ
mul_int a b = (a * b) % int_mod

-- the order of signed words: the sign bit turned over
abbrev pub lt_int : ℕ → ℕ → Bool
lt_int a b = ltb ((a + int_min) % int_mod) ((b + int_min) % int_mod)

abbrev pub le_int : ℕ → ℕ → Bool
le_int a b = not (lt_int b a)

abbrev pub magnitude : ℕ → ℕ
magnitude w = if is_negative w then int_mod - w else w

abbrev pub signed : Bool → ℕ → ℕ
signed negative m = if negative then neg_int m else m

abbrev pub xor_bool : Bool → Bool → Bool
xor_bool true b = not b
xor_bool false b = b

-- `^` on the bits
abbrev pub xor_int : ℕ → ℕ → ℕ
xor_int a b = bit_xor a b

-- the quotient that does not fit in an `int`
abbrev pub overflows : ℕ → ℕ → Bool
overflows a b = (a == int_min) && (b == int_mod - 1)

-- C's division rounds to zero
abbrev pub div_int : ℕ → ℕ → ℕ
div_int a b = signed (xor_bool (is_negative a) (is_negative b)) (magnitude a / magnitude b)

-- The digits of a positive number, the lowest first, behind those there already: `str.appendChar`
-- in a loop, then `str.reverse()`. A number below 2 ^ 31 has at most ten.
pub decimal_loop : ℕ → ℕ → List ℕ → List ℕ
decimal_loop zero value str = str
decimal_loop (suc fuel) zero str = str
decimal_loop (suc fuel) (suc value) str =
    decimal_loop fuel (suc value / 10) ((b'0' + suc value % 10) ∷ str)

-- `-INT_MIN` is `INT_MIN` again, whose remainder is negative: `digits[remaining]` throws
unfoldable pub int_to_string : ℕ → Outcome (List ℕ)
unfolding decimal_loop
int_to_string w =
    if w == 0
    then ok (b'0' ∷ [])
    else if w == int_min
    then panic index_out_of_range
    else if is_negative w
    then ok (b'-' ∷ decimal_loop 10 (int_mod - w) [])
    else ok (decimal_loop 10 w [])

pub skip_spaces : List ℕ → List ℕ
skip_spaces [] = []
skip_spaces (c ∷ s) = if c == b' ' then skip_spaces s else c ∷ s

-- the loop of `atoi`, which stops at `INT_MAX` or `INT_MIN`
pub atoi_loop : Bool → ℕ → List ℕ → ℕ
atoi_loop minus base [] = signed minus base
atoi_loop minus base (c ∷ s) =
    let rest = atoi_loop minus (10 * base + (c - b'0')) s in
    if is_digit c
    then if ltb (int_max / 10) base || (base == int_max / 10 && ltb 7 (c - b'0'))
      then if minus then int_min else int_max
      else rest
    else signed minus base

pub atoi_sign : List ℕ → ℕ
unfolding atoi_loop
atoi_sign [] = 0
atoi_sign (c ∷ s) =
    if c == b'-'
    then atoi_loop true 0 s
    else if c == b'+'
    then atoi_loop false 0 s
    else atoi_loop false 0 (c ∷ s)

unfoldable pub atoi : List ℕ → ℕ
unfolding skip_spaces atoi_sign
atoi s = atoi_sign (skip_spaces s)
