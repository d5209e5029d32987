-- ===== src/Cash/Parser/Sound.antt =====
-- The trees that the parser makes: each operator is one that the interpreter knows, and a pointer is
-- null only where the parser can leave it null: an index, and the value of a declaration.
use radish_os.Prelude.{◌≡◌, refl, ◌⊎◌, inl, inr, Bool, true, false, ◌||◌, arith, Bool-cases}
use radish_os.Cash.Token.{
  TokenType, ◌is◌, plus, minus, star, slash, and_word, or_word, xor_word, not_word, equal_equal,
  not_equal, lesser_than, greater_than, lesser_than_equal, greater_than_equal,
}
use radish_os.Cash.Ast.{
  Node, Nodes, nullptr, node_var_decl, node_const_decl, node_unary_op, node_binary_op, node_integer,
  node_bool, node_name, node_string, node_assign, node_list, node_command, no_nodes, next_node,
  push_node, is_null,
}

abbrev pub is_unary : TokenType → Bool
is_unary op = op is plus || op is minus || op is not_word

abbrev pub is_product : TokenType → Bool
is_product op = op is star || op is slash || op is and_word

abbrev pub is_sum : TokenType → Bool
is_sum op =
    op is plus
    || op is minus
    || op is or_word
    || op is xor_word
    || op is equal_equal
    || op is not_equal
    || op is lesser_than
    || op is lesser_than_equal
    || op is greater_than
    || op is greater_than_equal

abbrev pub is_binary : TokenType → Bool
is_binary op = is_sum op || is_product op

abbrev mutual
  pub IsSound : Node → Type 0
  IsSound nullptr = ⊥
  IsSound (node_var_decl key value) = (is_null value ≡ true) ⊎ IsSound value
  IsSound (node_const_decl key value) = (is_null value ≡ true) ⊎ IsSound value
  IsSound (node_unary_op value op) = IsSound value × (is_unary op ≡ true)
  IsSound (node_binary_op left right op) = IsSound left × IsSound right × (is_binary op ≡ true)
  IsSound (node_integer digits) = Unit {0}
  IsSound (node_bool word) = Unit {0}
  IsSound (node_name key fallback index) = (is_null index ≡ true) ⊎ IsSound index
  IsSound (node_string s) = Unit {0}
  IsSound (node_assign key index value) = ((is_null index ≡ true) ⊎ IsSound index) × IsSound value
  IsSound (node_list content) = AllSound content
  IsSound (node_command path arguments) = IsSound path × AllSound arguments

  pub AllSound : Nodes → Type 0
  AllSound no_nodes = Unit {0}
  AllSound (next_node n ns) = IsSound n × AllSound ns

abbrev pub IsSoundOrNull : Node → Type 0
IsSoundOrNull node = (is_null node ≡ true) ⊎ IsSound node

pub push_node-AllSound :
    (ns : Nodes) (n : Node) → AllSound ns → IsSound n → AllSound (push_node ns n)
unfolding push_node
push_node-AllSound no_nodes n h k = (k, tt)
push_node-AllSound (next_node m ns) n h k = (h.0, push_node-AllSound ns n h.1 k)

pub not_null : (n : Node) → IsSoundOrNull n → is_null n ≡ false → IsSound n
not_null n (inl null) h = ground arith
not_null n (inr sound) h = sound

pub sum_binary : (op : TokenType) → is_sum op ≡ true → is_binary op ≡ true
sum_binary op h = rw h refl

pub product_binary : (op : TokenType) → is_product op ≡ true → is_binary op ≡ true
product_binary op h = elim (Bool-cases (is_sum op)) [
  | inl sum ↦ sum_binary op sum
  | inr other ↦ rw (other, h) refl
]
