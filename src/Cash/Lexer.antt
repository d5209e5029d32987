-- ===== src/Cash/Lexer.antt =====
-- userspace/cash/cash/lexer.cpp: from a text to tokens. The text is read by `data[cursor]`, which
-- gives the terminator 0 at the end of the text. The strings that collect a token are values of the
-- loops, not fields. Rows and columns are `int` in the source: a text has fewer than 2 ^ 31
-- characters, so that they do not overflow.
pub mod Positions
pub mod Rounds
pub mod Ends
pub mod Lines
use radish_os.Prelude.{
  ℕ, zero, suc, ◌+◌, ◌-◌, Bool, true, false, not, ◌&&◌, ◌||◌, List, [], ◌∷◌, ◌++◌, ◌==◌, ltb, leb,
  if◌then◌else◌, length, get_or,
}
use radish_os.Outcome.{Outcome, ok, out_of_fuel, branch}
use radish_os.Cash.Text.{codes, is_space, is_digit, is_alpha, is_alnum, str_eq}
use radish_os.Cash.CommandStart.{
  is_name_char, is_name_start, rest_of, word_starts_command, is_expression_start,
}
use radish_os.Cash.Token.{
  Position, Token, TokenType, integer, name, string, raw_line, plus, minus, star, slash, equal,
  and_word, or_word, xor_word, not_word, equal_equal, not_equal, lesser_than, greater_than,
  lesser_than_equal, greater_than_equal, left_parenthesis, right_parenthesis, left_square_brace,
  right_square_brace, comma, var, const, true_word, false_word, end_of_file,
}

-- `illegalCharacterError`
pub record IllegalCharacter : Type 0 where
  pub ch : ℕ
  pub pos : Position

pub record Lexer : Type 0 where
  pub tokens : List Token
  pub position : Position
  pub cursor : ℕ
  pub input : List ℕ
  pub lexing : Bool
  pub has_error : Bool
  pub messages : List IllegalCharacter

abbrev pub newline : ℕ
newline = 10

abbrev pub start_position : Position
start_position = record { row = 0; column = 0; offset = 0 }

-- `data[cursor]`
abbrev pub current : Lexer → ℕ
current self = get_or self.input self.cursor 0

-- `cursor < data.length()`
abbrev pub inside : Lexer → Bool
inside self = ltb self.cursor (length self.input)

abbrev pub found_blank : Lexer → Bool
found_blank self = is_space (current self)

abbrev pub found_digit : Lexer → Bool
found_digit self = is_digit (current self)

abbrev pub next_position : ℕ → ℕ → Position → Position
next_position c cursor p =
    if c == newline
    then record { row = suc p.row; column = 0; offset = suc cursor }
    else record { row = p.row; column = suc p.column; offset = suc cursor }

abbrev pub advance : Lexer → Lexer
advance self = record self {
  position = next_position (current self) self.cursor self.position;
  cursor = suc self.cursor;
}

abbrev pub add_token_at : Lexer → Position → TokenType → List ℕ → Lexer
add_token_at self p type value = record self {
  tokens = self.tokens ++ (record { position = p; type = type; value = value }) ∷ [];
}

abbrev pub add_token : Lexer → TokenType → List ℕ → Lexer
add_token self type value = add_token_at self self.position type value

abbrev pub error : Lexer → Lexer
error self = record self {
  lexing = false;
  has_error = true;
  messages = self.messages ++ (record { ch = current self; pos = self.position }) ∷ [];
}

abbrev pub reset : Lexer → Lexer
reset self = record self { tokens = []; cursor = 0; position = start_position; has_error = false }

abbrev pub looks_like_command_start : Lexer → Bool
looks_like_command_start self =
    let c = current self in
    if is_expression_start c
    then false
    else if is_name_start c
    then word_starts_command (rest_of self.input self.cursor)
    else true

-- `while (cursor < length and test(data[cursor]))`, and the characters passed; the fuel is what is
-- left of the text
pub advance_while : (ℕ → Bool) → ℕ → Lexer → List ℕ × Lexer
advance_while test zero self = ([], self)
advance_while test (suc fuel) self =
    let more = advance_while test fuel (advance self) in
    if inside self && test (current self) then (current self ∷ more.0, more.1) else ([], self)

abbrev pub left : Lexer → ℕ
left self = length self.input - self.cursor

abbrev pub keywords : List (List ℕ × TokenType)
keywords =
    (codes "var", var)
    ∷ (codes "const", const)
    ∷ (codes "true", true_word)
    ∷ (codes "false", false_word)
    ∷ (codes "and", and_word)
    ∷ (codes "or", or_word)
    ∷ (codes "xor", xor_word)
    ∷ (codes "not", not_word)
    ∷ []

-- the chain of tests of the name against the keywords
pub first_keyword : List (List ℕ × TokenType) → List ℕ → TokenType
first_keyword [] word = name
first_keyword ((keyword, type) ∷ rest) word =
    if str_eq word keyword then type else first_keyword rest word

pub keyword_type : List ℕ → TokenType
unfolding first_keyword
keyword_type word = first_keyword keywords word

-- the tokens of one character; `EndOfFile` is the `char` of value -1
pub data Switch : Type 0 where
  single : TokenType → List ℕ → Switch
  double : TokenType → TokenType → Switch
  bang quote other : Switch

-- the labels of the `switch`
abbrev pub cases : List (ℕ × Switch)
cases =
    (b'+', single plus (codes "+"))
    ∷ (b'-', single minus (codes "-"))
    ∷ (b'*', single star (codes "*"))
    ∷ (b'/', single slash (codes "/"))
    ∷ (b'(', single left_parenthesis (codes "("))
    ∷ (b')', single right_parenthesis (codes ")"))
    ∷ (b'=', double equal_equal equal)
    ∷ (b'!', bang)
    ∷ (b'<', double lesser_than_equal lesser_than)
    ∷ (b'>', double greater_than_equal greater_than)
    ∷ (b'"', quote)
    ∷ (b'[', single left_square_brace (codes "["))
    ∷ (b']', single right_square_brace (codes "]"))
    ∷ (b',', single comma (codes ","))
    ∷ (255, single end_of_file (codes "EOF"))
    ∷ []

pub first_case : List (ℕ × Switch) → ℕ → Switch
first_case [] c = other
first_case ((label, body) ∷ rest) c = if c == label then body else first_case rest c

pub switch_of : ℕ → Switch
unfolding first_case
switch_of c = first_case cases c

-- The second `advance` stands behind both branches: the character behind a lone `=`, `<` or `>` is
-- passed over.
abbrev pub lex_double : Lexer → ℕ → TokenType → TokenType → Lexer
lex_double self c long short =
    let next = advance self in
    advance (
      if current next == b'='
      then add_token next long (c ∷ b'=' ∷ [])
      else add_token next short (c ∷ []))

abbrev pub lex_bang : Lexer → Lexer
lex_bang self =
    let next = advance self in
    if current next == b'=' then advance (add_token next not_equal (codes "!=")) else error next

-- a string literal; the token's position is that of the closing quote
abbrev pub lex_quote : Lexer → Lexer
lex_quote self =
    let next = advance self in
    let text = advance_while (λ c. not (c == b'"')) (left next) next in
    advance (add_token text.1 string text.0)

abbrev pub lex_switch : Lexer → Switch → Lexer
lex_switch self (single type value) = advance (add_token self type value)
lex_switch self (double long short) = lex_double self (current self) long short
lex_switch self bang = lex_bang self
lex_switch self quote = lex_quote self
lex_switch self other = error self

-- a token that begins where the lexer stands: a line, an integer or a name
abbrev pub lex_run : Lexer → (ℕ → Bool) → (List ℕ → TokenType) → Lexer
lex_run self test type =
    let text = advance_while test (left self) self in
    add_token_at text.1 self.position (type text.0) text.0

abbrev pub starts_command : Lexer → Bool
starts_command self =
    (self.position.column == 0 || current self == newline) && looks_like_command_start self

-- the body of the loop, behind the blanks
pub lex_token : Lexer → Lexer
unfolding advance_while switch_of keyword_type
lex_token self =
    branch (starts_command self) (λ _. lex_run self (λ c. not (c == newline)) (λ text. raw_line))
      (λ _.
        branch (found_digit self) (λ _. lex_run self is_digit (λ text. integer))
          (λ _.
            branch (is_name_start (current self)) (λ _. lex_run self is_name_char keyword_type)
              (λ _. lex_switch self (switch_of (current self)))))

abbrev pub skip_blanks : Lexer → Lexer
unfolding advance_while
skip_blanks self = (advance_while is_space (left self) self).1

pub lex_loop : ℕ → Lexer → Outcome Lexer
unfolding lex_token advance_while
lex_loop zero self = out_of_fuel
lex_loop (suc fuel) self =
    let here = skip_blanks self in
    branch (inside self && self.lexing)
      (λ _. branch (inside here) (λ _. lex_loop fuel (lex_token here)) (λ _. ok here))
      (λ _. ok self)

-- every round but the last passes a character
abbrev pub lex_fuel : Lexer → ℕ
lex_fuel self = suc (length self.input)

-- the lexer afterwards; `lex` returns `not has_error`
unfoldable pub lex : Lexer → Outcome Lexer
unfolding lex_loop
lex self = lex_loop (lex_fuel self) (record (reset self) { lexing = true })

-- `Lexer(data)`, `setData`
abbrev pub new_lexer : List ℕ → Lexer
new_lexer text = record {
  tokens = [];
  position = start_position;
  cursor = 0;
  input = text;
  lexing = false;
  has_error = false;
  messages = [];
}

abbrev pub set_data : Lexer → List ℕ → Lexer
set_data self text = record self { input = text }
