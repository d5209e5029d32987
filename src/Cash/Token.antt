-- ===== src/Cash/Token.antt =====
-- userspace/cash/include/cash/position.hpp and token.hpp: a position in the text, and a token.
use radish_os.Prelude.{ℕ, Bool, List, ◌==◌}

pub record Position : Type 0 where
  pub row : ℕ
  pub column : ℕ
  pub offset : ℕ

pub data TokenType : Type 0 where
  integer name string raw_line : TokenType
  plus minus star slash equal and_word or_word xor_word not_word equal_equal not_equal : TokenType
  lesser_than greater_than lesser_than_equal greater_than_equal : TokenType
  left_parenthesis right_parenthesis left_square_brace right_square_brace comma : TokenType
  var const true_word false_word : TokenType
  end_of_file : TokenType

-- `std::to_underlying`
abbrev pub underlying : TokenType → ℕ
underlying integer = 0
underlying name = 1
underlying string = 2
underlying raw_line = 3
underlying plus = 4
underlying minus = 5
underlying star = 6
underlying slash = 7
underlying equal = 8
underlying and_word = 9
underlying or_word = 10
underlying xor_word = 11
underlying not_word = 12
underlying equal_equal = 13
underlying not_equal = 14
underlying lesser_than = 15
underlying greater_than = 16
underlying lesser_than_equal = 17
underlying greater_than_equal = 18
underlying left_parenthesis = 19
underlying right_parenthesis = 20
underlying left_square_brace = 21
underlying right_square_brace = 22
underlying comma = 23
underlying var = 24
underlying const = 25
underlying true_word = 26
underlying false_word = 27
underlying end_of_file = 28

infix 50 ◌is◌
abbrev pub ◌is◌ : TokenType → TokenType → Bool
a is b = underlying a == underlying b

pub record Token : Type 0 where
  pub position : Position
  pub type : TokenType
  pub value : List ℕ
