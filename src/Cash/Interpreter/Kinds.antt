-- ===== src/Cash/Interpreter/Kinds.antt =====
-- The kinds of values that a node can have, told from the node alone.
use radish_os.Prelude.{◌≡◌, Bool, true, false, ◌&&◌, ◌||◌, List, if◌then◌else◌}
use radish_os.Outcome.{Ends, Outcome}
use radish_os.Cash.Token.{TokenType, ◌is◌, plus, slash, not_word}
use radish_os.Cash.Ast.{
  Node, nullptr, node_var_decl, node_const_decl, node_unary_op, node_binary_op, node_integer,
  node_bool, node_name, node_string, node_assign, node_list, node_command,
}
use radish_os.Cash.Value.{EvalValue, null_value, string_value, int_value, bool_value, vector_value}
use radish_os.Cash.Symbol.{Message}
use radish_os.Cash.Interpreter.{Interpreter, is_test}

pub data Kind : Type 0 where
  null_kind string_kind int_kind bool_kind vector_kind : Kind

abbrev pub kind_of : EvalValue → Kind
kind_of null_value = null_kind
kind_of (string_value s) = string_kind
kind_of (int_value i) = int_kind
kind_of (bool_value b) = bool_kind
kind_of (vector_value vs) = vector_kind

abbrev pub is_null_kind : Kind → Bool
is_null_kind null_kind = true
is_null_kind k = false

abbrev pub is_string_kind : Kind → Bool
is_string_kind string_kind = true
is_string_kind k = false

abbrev pub is_int_kind : Kind → Bool
is_int_kind int_kind = true
is_int_kind k = false

abbrev pub is_bool_kind : Kind → Bool
is_bool_kind bool_kind = true
is_bool_kind k = false

abbrev pub is_vector_kind : Kind → Bool
is_vector_kind vector_kind = true
is_vector_kind k = false

-- a sum may join strings, and a quotient may fail
abbrev pub number_allows : TokenType → Kind → Bool
number_allows op k =
    is_int_kind k || (op is plus && is_string_kind k) || (op is slash && is_null_kind k)

abbrev pub binary_allows : TokenType → Kind → Bool
binary_allows op k = if is_test op then is_bool_kind k else number_allows op k

-- the kinds that a node can have
abbrev pub allows : Node → Kind → Bool
allows nullptr k = false
allows (node_var_decl key value) k = is_null_kind k
allows (node_const_decl key value) k = is_null_kind k
allows (node_unary_op value op) k = if op is not_word then is_bool_kind k else is_int_kind k
allows (node_binary_op left right op) k = binary_allows op k
allows (node_integer digits) k = is_int_kind k
allows (node_bool word) k = is_bool_kind k
allows (node_name key fallback index) k = true
allows (node_string text) k = is_string_kind k
allows (node_assign key index value) k = true
allows (node_list content) k = is_vector_kind k
allows (node_command path arguments) k = is_null_kind k

abbrev Allows : (Kind → Bool) → Outcome (EvalValue × List Message) → Type 0
Allows test m = Ends (λ (r : EvalValue × List Message). test (kind_of r.0) ≡ true) m
