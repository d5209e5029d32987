-- ===== src/Cash/Info.antt =====
-- userspace/cash/include/cash/ast.hpp, `info`, and userspace/cash/cash/token.cpp,
-- `tokenTypeToString`: the texts that describe a node and a type of token.
use radish_os.Prelude.{ℕ, ◌≡◌, refl, List, [], ◌++◌, if◌then◌else◌}
use radish_os.Outcome.{Outcome, ok, panic, null_pointer, ◌>>=◌}
use radish_os.Cash.Text.{codes}
use radish_os.Cash.Token.{
  TokenType, integer, name, string, raw_line, plus, minus, star, slash, equal, and_word, or_word,
  xor_word, not_word, equal_equal, not_equal, lesser_than, greater_than, lesser_than_equal,
  greater_than_equal, left_parenthesis, right_parenthesis, left_square_brace, right_square_brace,
  comma, var, const, true_word, false_word, end_of_file,
}
use radish_os.Cash.Ast.{
  Node, nullptr, node_var_decl, node_const_decl, node_unary_op, node_binary_op, node_integer,
  node_bool, node_name, node_string, node_assign, node_list, node_command, is_null,
}

token_type_to_string : TokenType → List ℕ
token_type_to_string integer = codes "Integer"
token_type_to_string name = codes "Name"
token_type_to_string string = codes "String"
token_type_to_string raw_line = codes "Rawline"
token_type_to_string plus = codes "Plus"
token_type_to_string minus = codes "Minus"
token_type_to_string star = codes "Star"
token_type_to_string slash = codes "Slash"
token_type_to_string equal = codes "Equal"
token_type_to_string and_word = codes "And"
token_type_to_string or_word = codes "Or"
token_type_to_string xor_word = codes "Xor"
token_type_to_string not_word = codes "Not"
token_type_to_string equal_equal = codes "EqualEqual"
token_type_to_string not_equal = codes "NotEqual"
token_type_to_string lesser_than = codes "LesserThan"
token_type_to_string greater_than = codes "GreaterThan"
token_type_to_string lesser_than_equal = codes "LesserThanEqual"
token_type_to_string greater_than_equal = codes "GreaterThanEqual"
token_type_to_string left_parenthesis = codes "LeftParenthesis"
token_type_to_string right_parenthesis = codes "RightParenthesis"
token_type_to_string left_square_brace = codes "LeftSquareBrace"
token_type_to_string right_square_brace = codes "RightSquareBrace"
token_type_to_string comma = codes "Comma"
token_type_to_string var = codes "Var"
token_type_to_string const = codes "Const"
token_type_to_string true_word = codes "True"
token_type_to_string false_word = codes "False"
token_type_to_string end_of_file = codes "EndOfFile"

-- `index ? index->info() : "(nullptr)"`
abbrev info_or_null : Node → Outcome (List ℕ) → Outcome (List ℕ)
info_or_null node text = if is_null node then ok (codes "(nullptr)") else text

-- `formatString` puts the texts in the place of the braces
info : Node → Outcome (List ℕ)
unfolding token_type_to_string
info nullptr = panic null_pointer
info (node_var_decl key value) = do
  v ← info value
  ok (codes "NodeVarDecl(name=" ++ key ++ codes ", value=" ++ v ++ codes ")")
info (node_const_decl key value) = do
  v ← info value
  ok (codes "NodeConstDecl(name=" ++ key ++ codes ", value=" ++ v ++ codes ")")
info (node_unary_op value op) = do
  v ← info value
  ok (codes "NodeUnaryOp(value=" ++ v ++ codes ", op=" ++ token_type_to_string op ++ codes ")")
info (node_binary_op left right op) = do
  l ← info left
  r ← info right
  ok (
      codes "NodeBinaryOp(left="
      ++ l
      ++ codes ", right="
      ++ r
      ++ codes ", op="
      ++ token_type_to_string op
      ++ codes ")")
info (node_integer value) = ok (codes "NodeInteger(value=" ++ value ++ codes ")")
info (node_bool value) = ok (codes "NodeBool(value=" ++ value ++ codes ")")
info (node_name key fallback index) =
    let described = info index in
    info_or_null index described >>= λ i. ok (
      codes "NodeName(name="
      ++ key
      ++ codes ", fallback="
      ++ fallback
      ++ codes ", index="
      ++ i
      ++ codes ")")
info (node_string value) = ok (codes "NodeString(value=" ++ value ++ codes ")")
info (node_assign key index value) =
    let described = info index in
    info_or_null index described >>= λ i. info value >>= λ v.
    ok (
      codes "NodeAssign(name="
      ++ key
      ++ codes ", index="
      ++ i
      ++ codes ", value="
      ++ v
      ++ codes ")")
info (node_list content) = ok (codes "NodeList()")
info (node_command path arguments) = do
  p ← info path
  ok (codes "NodeCommand(path=" ++ p ++ codes ", arguments=())")

-- `1 + x`
described_sum :
    info (node_binary_op (node_integer (codes "1")) (node_name (codes "x") [] nullptr) plus)
    ≡ ok (
        codes "NodeBinaryOp(left=NodeInteger(value=1), "
        ++ codes "right=NodeName(name=x, fallback=, index=(nullptr)), op=Plus)")
unfolding info
described_sum = refl
