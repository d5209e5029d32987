-- ===== src/Cash/Interpreter.antt =====
-- userspace/cash/cash/interpreter.cpp: the evaluation of a tree. What is printed and the commands
-- that are run are kept as lists. A command is run by `fork`, `exec` in the child and `wait` in the
-- parent: the model follows the parent, and its trace holds the child's arguments.
pub mod Keeping
pub mod Kinds
pub mod Commands
pub mod Defined
pub mod Numbers
use radish_os.Prelude.{
  ℕ, ◌+◌, Bool, true, false, not, ◌&&◌, ◌||◌, List, [], ◌∷◌, ◌++◌, ◌==◌, leb, if◌then◌else◌,
}
use radish_os.Outcome.{Outcome, ok, panic, bad_typeid, division_trap, ◌>>=◌, branch}
use radish_os.Cash.Text.{codes, str_eq, is_empty}
use radish_os.Cash.Word.{
  is_negative, neg_int, add_int, sub_int, mul_int, div_int, lt_int, le_int, xor_int, overflows,
  atoi,
}
use radish_os.Cash.Token.{
  TokenType, ◌is◌, plus, minus, star, slash, and_word, or_word, xor_word, not_word, equal_equal,
  not_equal, lesser_than, greater_than, lesser_than_equal, greater_than_equal,
}
use radish_os.Cash.Ast.{
  Node, Nodes, nullptr, node_var_decl, node_const_decl, node_unary_op, node_binary_op, node_integer,
  node_bool, node_name, node_string, node_assign, node_list, node_command, no_nodes, next_node,
  is_null,
}
use radish_os.Cash.Value.{
  EvalValue, Values, null_value, string_value, int_value, bool_value, vector_value, no_values,
  next_value, to_string, to_int, to_vector, count, value_at, set_value,
}
use radish_os.Cash.Symbol.{
  Symbol, SymbolType, variable, constant, Message, not_declared, index_out_of_range_error,
  division_by_zero, is_defined, add_symbol, get_symbol, set_symbol_value, clear, start_table,
}

pub record Interpreter : Type 0 where
  pub symbol_table : List Symbol
  pub messages : List Message
  -- the arguments of each command, its path first
  pub commands : List (List (List ℕ))

abbrev pub new_interpreter : Interpreter
new_interpreter = record { symbol_table = start_table; messages = []; commands = [] }

abbrev pub say : Interpreter → List Message → Interpreter
say self ms = record self { messages = self.messages ++ ms }

abbrev pub with_table : Interpreter → List Symbol × List Message → Interpreter
with_table self r = record (say self r.1) { symbol_table = r.0 }

-- `arg.toString()` for each argument
pub strings_of : Values → Outcome (List (List ℕ))
strings_of no_values = ok []
strings_of (next_value v vs) = do s ← to_string v; rest ← strings_of vs; ok (s ∷ rest)

pub run_command : Interpreter → EvalValue → Values → Outcome (EvalValue × Interpreter)
unfolding strings_of
run_command self path arguments = do
  path_str ← to_string path
  strings ← strings_of arguments
  ok (null_value, record self { commands = self.commands ++ (path_str ∷ strings) ∷ [] })

-- `VarDecl` and `ConstDecl`
abbrev pub declare : Interpreter → List ℕ → EvalValue → SymbolType → EvalValue × Interpreter
declare self key v kind =
    let r = add_symbol self.symbol_table (record { name = key; value = v; type = kind }) in
    (null_value, with_table self (r.0, r.2))

abbrev pub int_to_bool : ℕ → Bool
int_to_bool w = not (w == 0)

-- `garbage` is what a local `int result` holds that no branch assigns
abbrev pub unary : ℕ → TokenType → EvalValue → EvalValue
unary garbage op v =
    let int_val = to_int v in
    if op is not_word
    then bool_value (not (int_to_bool int_val))
    else if op is plus
    then int_value int_val
    else if op is minus
    then int_value (neg_int int_val)
    else int_value garbage

abbrev pub is_test : TokenType → Bool
is_test op =
    op is and_word
    || op is or_word
    || op is xor_word
    || op is equal_equal
    || op is not_equal
    || op is lesser_than
    || op is lesser_than_equal
    || op is greater_than
    || op is greater_than_equal

abbrev pub compare_ints : TokenType → ℕ → ℕ → Bool
compare_ints op l r =
    if op is and_word
    then int_to_bool l && int_to_bool r
    else if op is or_word
    then int_to_bool l || int_to_bool r
    else if op is xor_word
    then int_to_bool (xor_int l r)
    else if op is equal_equal
    then l == r
    else if op is not_equal
    then not (l == r)
    else if op is lesser_than
    then lt_int l r
    else if op is lesser_than_equal
    then le_int l r
    else if op is greater_than
    then lt_int r l
    else le_int r l

abbrev pub quotient : ℕ → ℕ → Outcome (EvalValue × List Message)
quotient l r =
    if r == 0
    then ok (null_value, division_by_zero l ∷ [])
    else if overflows l r
    then panic division_trap
    else ok (int_value (div_int l r), [])

-- The value, and what is printed. The least `int` divided by -1 stops the process with a trap.
abbrev pub calculate : ℕ → TokenType → ℕ → ℕ → Outcome (EvalValue × List Message)
calculate garbage op l r =
    if op is plus
    then ok (int_value (add_int l r), [])
    else if op is minus
    then ok (int_value (sub_int l r), [])
    else if op is star
    then ok (int_value (mul_int l r), [])
    else if op is slash
    then quotient l r
    else ok (int_value garbage, [])

abbrev pub binary_ints : ℕ → TokenType → ℕ → ℕ → Outcome (EvalValue × List Message)
binary_ints garbage op l r =
    if is_test op then ok (bool_value (compare_ints op l r), []) else calculate garbage op l r

-- two strings are joined or compared; under any other operator they are numbers
abbrev pub binary : ℕ → TokenType → EvalValue → EvalValue → Outcome (EvalValue × List Message)
binary garbage op (string_value s) (string_value t) =
    if op is plus
    then ok (string_value (s ++ t), [])
    else if op is equal_equal
    then ok (bool_value (str_eq s t), [])
    else if op is not_equal
    then ok (bool_value (not (str_eq s t)), [])
    else binary_ints garbage op (atoi s) (atoi t)
binary garbage op v w = binary_ints garbage op (to_int v) (to_int w)

abbrev pub out_of_bounds : ℕ → Values → Bool
out_of_bounds index vs = is_negative index || leb (count vs) index

-- a name without a symbol
abbrev pub undeclared : Interpreter → List ℕ → List ℕ → EvalValue × Interpreter
undeclared self key fallback =
    if is_empty fallback
    then (null_value, say self (not_declared key ∷ []))
    else (string_value fallback, self)

-- `symbol` is a reference into the table, so the element is that of the table after the index has
-- been evaluated
abbrev pub element : Interpreter → List ℕ → EvalValue → EvalValue × Interpreter
element self key index =
    let vec = to_vector (get_symbol self.symbol_table key).value in
    if out_of_bounds (to_int index) vec
    then (null_value, say self (index_out_of_range_error (to_int index) (count vec) ∷ []))
    else (value_at vec (to_int index), self)

abbrev pub assign : Interpreter → List ℕ → EvalValue → EvalValue × Interpreter
assign self key v =
    let after = with_table self (set_symbol_value self.symbol_table key v) in
    ((get_symbol after.symbol_table key).value, after)

abbrev pub assign_element : Interpreter → List ℕ → EvalValue → EvalValue → EvalValue × Interpreter
assign_element self key index v =
    let vec = to_vector (get_symbol self.symbol_table key).value in
    if out_of_bounds (to_int index) vec
    then (null_value, say self (index_out_of_range_error (to_int index) (count vec) ∷ []))
    else assign self key (vector_value (set_value vec (to_int index) v))

module _ (garbage : ℕ) where
  unfoldable mutual
    unfolding run_command

    -- `typeid` of a null pointer throws
    pub evaluate : Interpreter → Node → Outcome (EvalValue × Interpreter)
    evaluate self nullptr = panic bad_typeid
    evaluate self (node_var_decl key value) = do
      r ← evaluate self value
      ok (declare r.1 key r.0 variable)
    evaluate self (node_const_decl key value) = do
      r ← evaluate self value
      ok (declare r.1 key r.0 constant)
    evaluate self (node_unary_op value op) = do
      r ← evaluate self value
      ok (unary garbage op r.0, r.1)
    evaluate self (node_binary_op left right op) = do
      l ← evaluate self left
      r ← evaluate l.1 right
      v ← binary garbage op l.0 r.0
      ok (v.0, say r.1 v.1)
    evaluate self (node_integer digits) = ok (int_value (atoi digits), self)
    evaluate self (node_name key fallback index) =
        branch (is_defined (get_symbol self.symbol_table key))
          (λ _.
            branch (is_null index) (λ _. ok ((get_symbol self.symbol_table key).value, self))
              (λ _. evaluate self index >>= λ i. ok (element i.1 key i.0)))
          (λ _. ok (undeclared self key fallback))
    evaluate self (node_assign key index value) = do
      v ← evaluate self value
      branch (is_defined (get_symbol v.1.symbol_table key))
          (λ _.
            branch (is_null index) (λ _. ok (assign v.1 key v.0))
              (λ _. evaluate v.1 index >>= λ i. ok (assign_element i.1 key i.0 v.0)))
          (λ _. ok (null_value, v.1))
    evaluate self (node_bool word) = ok (bool_value (str_eq word (codes "true")), self)
    evaluate self (node_string s) = ok (string_value s, self)
    evaluate self (node_list content) = do r ← evaluate_all self content; ok (vector_value r.0, r.1)
    evaluate self (node_command path arguments) = do
      p ← evaluate self path
      a ← evaluate_all p.1 arguments
      run_command a.1 p.0 a.0

    -- the loops over a list's elements and a command's arguments
    pub evaluate_all : Interpreter → Nodes → Outcome (Values × Interpreter)
    evaluate_all self no_nodes = ok (no_values, self)
    evaluate_all self (next_node n ns) = do
      v ← evaluate self n
      vs ← evaluate_all v.1 ns
      ok (next_value v.0 vs.0, vs.1)

  -- the values of the nodes, the table kept from the line before
  unfoldable pub interpret : Interpreter → Nodes → Outcome (Values × Interpreter)
  interpret self nodes = do
    table ← clear self.symbol_table
    evaluate_all (record self { symbol_table = table }) nodes
