-- ===== src/Cash/Text.antt =====
-- userspace/libraries/libc/src/ctype.c: classes of characters, and the comparison of two strings. A
-- string of user space is the list of its characters' codes, without the terminator. No code in it
-- is 0, so that `strcmp`, which stops there, compares whole strings.
use Prim.Native.Char.{code}
use Prim.Native.String.{String}
use radish_os.Prelude.{
  ℕ, ◌≡◌, refl, inl, inr, Bool, true, false, ◌&&◌, ◌||◌, List, [], ◌∷◌, arith, ◌==◌, leb, ==_iff,
  ==_refl, Bool-cases,
}

-- the codes of a literal; `String` has its own `[]` and `∷`
abbrev pub codes : String → List ℕ
codes String.[] = []
codes (String.◌∷◌ c s) = code c ∷ codes s

abbrev pub is_space : ℕ → Bool
is_space c = c == b' ' || c == 12 || c == 10 || c == 13 || c == 9 || c == 11

abbrev pub is_digit : ℕ → Bool
is_digit c = leb b'0' c && leb c b'9'

abbrev pub is_alpha : ℕ → Bool
is_alpha c = (leb b'A' c && leb c b'Z') || (leb b'a' c && leb c b'z')

abbrev pub is_alnum : ℕ → Bool
is_alnum c = is_alpha c || is_digit c

-- `String::operator ==`
abbrev pub str_eq : List ℕ → List ℕ → Bool
str_eq [] [] = true
str_eq [] (c ∷ t) = false
str_eq (c ∷ s) [] = false
str_eq (c ∷ s) (d ∷ t) = (c == d) && str_eq s t

abbrev pub is_empty : List ℕ → Bool
is_empty [] = true
is_empty (c ∷ s) = false

pub str_eq_refl : (s : List ℕ) → str_eq s s ≡ true
str_eq_refl [] = refl
str_eq_refl (c ∷ s) = simp (==_refl c, str_eq_refl s) refl

pub str_eq→≡ : (s t : List ℕ) → str_eq s t ≡ true → s ≡ t
str_eq→≡ [] [] h = refl
str_eq→≡ [] (d ∷ t) h = ground arith
str_eq→≡ (c ∷ s) [] h = ground arith
str_eq→≡ (c ∷ s) (d ∷ t) h = elim (Bool-cases (c == d)) [
  | inl same ↦ rw ((==_iff c d).0 same, str_eq→≡ s t (ground arith)) refl
  | inr other ↦ ground arith
]
