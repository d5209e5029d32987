-- ===== src/Cash/CommandStart.antt =====
-- userspace/cash/cash/lexer.cpp, `looksLikeCommandStart`: whether a text begins with a command. What
-- it reads by indices from the cursor on is the list of the rest of the text.
use radish_os.Prelude.{
  ℕ, zero, suc, Bool, false, not, ◌&&◌, ◌||◌, List, [], ◌∷◌, ◌==◌, if◌then◌else◌,
}
use radish_os.Cash.Text.{codes, is_space, is_digit, is_alpha, is_alnum, str_eq}

abbrev pub is_name_char : ℕ → Bool
is_name_char c = is_alnum c || c == b'_'

abbrev pub is_name_start : ℕ → Bool
is_name_start c = is_alpha c || c == b'_'

abbrev pub take_while : (ℕ → Bool) → List ℕ → List ℕ
take_while test [] = []
take_while test (c ∷ s) = if test c then c ∷ take_while test s else []

abbrev pub drop_while : (ℕ → Bool) → List ℕ → List ℕ
drop_while test [] = []
drop_while test (c ∷ s) = if test c then drop_while test s else c ∷ s

abbrev pub rest_of : List ℕ → ℕ → List ℕ
rest_of [] i = []
rest_of (c ∷ s) zero = c ∷ s
rest_of (c ∷ s) (suc i) = rest_of s i

abbrev pub is_keyword : List ℕ → Bool
is_keyword word =
    str_eq word (codes "var")
    || str_eq word (codes "const")
    || str_eq word (codes "true")
    || str_eq word (codes "false")
    || str_eq word (codes "and")
    || str_eq word (codes "or")
    || str_eq word (codes "xor")
    || str_eq word (codes "not")

abbrev pub is_operator_char : ℕ → Bool
is_operator_char c =
    c == b'+'
    || c == b'-'
    || c == b'*'
    || c == b'/'
    || c == b'='
    || c == b'!'
    || c == b'<'
    || c == b'>'
    || c == b'['

-- `=`, and behind it no second `=`
abbrev pub is_assignment : List ℕ → Bool
is_assignment [] = false
is_assignment (c ∷ []) = c == b'='
is_assignment (c ∷ d ∷ s) = c == b'=' && not (d == b'=')

abbrev pub starts_with_operator : List ℕ → Bool
starts_with_operator [] = false
starts_with_operator (c ∷ s) = is_operator_char c

-- a name that no operator follows begins a command
abbrev pub word_starts_command : List ℕ → Bool
word_starts_command text =
    let word = take_while is_name_char text in
    let behind = drop_while is_space (drop_while is_name_char text) in
    not (is_keyword word) && not (is_assignment behind) && not (starts_with_operator behind)

abbrev pub is_expression_start : ℕ → Bool
is_expression_start c = is_digit c || c == b'+' || c == b'-' || c == b'(' || c == b'"' || c == b'['
