-- ===== src/Cash/Interpreter/Keeping.antt =====
-- Evaluation keeps the constants and the names of the table.
use radish_os.Prelude.{
  ◌≡◌, refl, ℕ, inl, inr, Bool, true, false, List, [], ◌∷◌, ◌==◌, if◌then◌else◌, Bool-cases,
}
use radish_os.Outcome.{Outcome, Ends, Ends->>=, Ends-map, Ends-branch, ◌>>=◌}
use radish_os.Cash.Ast.{
  Node, Nodes, nullptr, node_var_decl, node_const_decl, node_unary_op, node_binary_op, node_integer,
  node_bool, node_name, node_string, node_assign, node_list, node_command, no_nodes, next_node,
  is_null,
}
use radish_os.Cash.Value.{
  null_value, string_value, EvalValue, Values, no_values, next_value, to_string, to_int, to_vector,
}
use radish_os.Cash.Token.{TokenType, ◌is◌, plus, minus, star, slash, equal_equal, not_equal}
use radish_os.Cash.Word.{atoi, overflows}
use radish_os.Cash.Value.Laws.{to_string-ends}
use radish_os.Cash.Symbol.{is_defined, get_symbol}
use radish_os.Cash.Symbol.Laws.{clear-IsStarted, IsStarted}
use radish_os.Cash.Symbol.Kept.{Kept, Kept-refl, Kept-trans, add_symbol-Kept, set_symbol_value-Kept}
use radish_os.Cash.Interpreter.{
  Interpreter, evaluate, evaluate_all, interpret, run_command, strings_of, element, undeclared,
  assign, assign_element, out_of_bounds, is_test, binary_ints, binary,
}

-- what a result leaves of the table before it
abbrev pub After : {A : Type 0} → Interpreter → A × Interpreter → Type 0
After self r = Kept self.symbol_table r.1.symbol_table

After-trans :
    {A B : Type 0} (s : Interpreter) (r : A × Interpreter) (q : B × Interpreter)
    → After s r
    → After r.1 q
    → After s q
After-trans s r q h k = Kept-trans s.symbol_table r.1.symbol_table q.1.symbol_table h k

-- a second computation that begins where the first has ended
then-After :
    {A B : Type 0} (s : Interpreter) (m : Outcome (A × Interpreter))
    (f : A × Interpreter → Outcome (B × Interpreter))
    → Ends (After s) m
    → ((r : A × Interpreter) → Ends (After r.1) (f r))
    → Ends (After s) (m >>= f)
then-After s m f h k =
    Ends->>= (After s) m f h (λ r a. Ends-map (f r) (k r) (λ q. After-trans s r q a))

-- an operator ends, by a value or by the trap
abbrev Stops : {A : Type 0} → Outcome A → Type 0
Stops m = Ends (λ _. Unit {0}) m

if_Stops :
    {A : Type 0} (b : Bool) (m n : Outcome A) → Stops m → Stops n → Stops (if b then m else n)
if_Stops true m n h k = h
if_Stops false m n h k = k

binary_ints-Stops : (garbage : ℕ) (op : TokenType) (l r : ℕ) → Stops (binary_ints garbage op l r)
binary_ints-Stops garbage op l r = if_Stops (is_test op) _ _ tt (
    if_Stops (op is plus) _ _ tt (
      if_Stops (op is minus) _ _ tt (
        if_Stops (op is star) _ _ tt (
          if_Stops (op is slash) _ _ (if_Stops (r == 0) _ _ tt (if_Stops (overflows l r) _ _ tt tt))
            tt))))

binary-Stops : (garbage : ℕ) (op : TokenType) (v w : EvalValue) → Stops (binary garbage op v w)
binary-Stops garbage op (string_value s) (string_value t) = if_Stops (op is plus) _ _ tt (
    if_Stops (op is equal_equal) _ _ tt
      (if_Stops (op is not_equal) _ _ tt (binary_ints-Stops garbage op (atoi s) (atoi t))))
binary-Stops garbage op v w = binary_ints-Stops garbage op (to_int v) (to_int w)

strings-ends : (vs : Values) → Ends (λ s. Unit {0}) (strings_of vs)
unfolding strings_of
strings-ends no_values = tt
strings-ends (next_value v vs) =
    Ends->>= _ (to_string v) _ (to_string-ends v)
      λ s h. Ends->>= _ (strings_of vs) _ (strings-ends vs) λ t k. tt

run_command-After :
    (s : Interpreter) (path : EvalValue) (arguments : Values)
    → Ends (After s) (run_command s path arguments)
unfolding run_command
run_command-After s path arguments = Ends->>= _ (to_string path) _ (to_string-ends path) λ p h.
    Ends->>= _ (strings_of arguments) _ (strings-ends arguments) λ a k. Kept-refl s.symbol_table

pub run_command-null :
    (s : Interpreter) (path : EvalValue) (arguments : Values)
    → Ends (λ r. r.0 ≡ null_value) (run_command s path arguments)
unfolding run_command
run_command-null s path arguments =
    Ends->>= _ (to_string path) _ (to_string-ends path)
      λ p h. Ends->>= _ (strings_of arguments) _ (strings-ends arguments) λ a k. refl

undeclared-After : (s : Interpreter) (key fallback : List ℕ) → After s (undeclared s key fallback)
undeclared-After s key [] = Kept-refl s.symbol_table
undeclared-After s key (c ∷ fallback) = Kept-refl s.symbol_table

element-After : (s : Interpreter) (key : List ℕ) (i : EvalValue) → After s (element s key i)
element-After s key i =
    elim (Bool-cases (out_of_bounds (to_int i) (to_vector (get_symbol s.symbol_table key).value))) [
      | inl outside ↦ rw outside (Kept-refl s.symbol_table)
      | inr inside ↦ rw inside (Kept-refl s.symbol_table)
    ]

assign-After : (s : Interpreter) (key : List ℕ) (v : EvalValue) → After s (assign s key v)
assign-After s key v = set_symbol_value-Kept s.symbol_table key v

assign_element-After :
    (s : Interpreter) (key : List ℕ) (i v : EvalValue) → After s (assign_element s key i v)
assign_element-After s key i v =
    elim (Bool-cases (out_of_bounds (to_int i) (to_vector (get_symbol s.symbol_table key).value))) [
      | inl outside ↦ rw outside (Kept-refl s.symbol_table)
      | inr inside ↦ rw inside (assign-After s key _)
    ]

module _ (garbage : ℕ) where
  mutual
    unfolding evaluate

    -- Evaluating a tree ends, by returning or by an exception, and then every constant of the table
    -- has its value still, and no name has gone.
    pub evaluate-Kept :
        (s : Interpreter) (node : Node)
        → Ends (λ r. Kept s.symbol_table r.1.symbol_table) (evaluate garbage s node)
    evaluate-Kept s nullptr = tt
    evaluate-Kept s (node_var_decl key value) =
        then-After s (evaluate garbage s value) _ (evaluate-Kept s value)
          (λ r. add_symbol-Kept r.1.symbol_table _)
    evaluate-Kept s (node_const_decl key value) =
        then-After s (evaluate garbage s value) _ (evaluate-Kept s value)
          (λ r. add_symbol-Kept r.1.symbol_table _)
    evaluate-Kept s (node_unary_op value op) =
        then-After s (evaluate garbage s value) _ (evaluate-Kept s value)
          (λ r. Kept-refl r.1.symbol_table)
    evaluate-Kept s (node_binary_op left right op) =
        then-After s (evaluate garbage s left) _ (evaluate-Kept s left) λ l.
          then-After l.1 (evaluate garbage l.1 right) _ (evaluate-Kept l.1 right) λ r.
            Ends->>= _ (binary garbage op l.0 r.0) _ (binary-Stops garbage op l.0 r.0)
              (λ v h. Kept-refl r.1.symbol_table)
    evaluate-Kept s (node_integer digits) = Kept-refl s.symbol_table
    evaluate-Kept s (node_bool word) = Kept-refl s.symbol_table
    evaluate-Kept s (node_string text) = Kept-refl s.symbol_table
    evaluate-Kept s (node_name key fallback index) =
        Ends-branch (After s) (is_defined (get_symbol s.symbol_table key)) _ _
          (λ found.
            Ends-branch (After s) (is_null index) _ _ (λ plain. Kept-refl s.symbol_table)
              (λ indexed.
                then-After s (evaluate garbage s index) _ (evaluate-Kept s index)
                  (λ i. element-After i.1 key i.0)))
          (λ missing. undeclared-After s key fallback)
    evaluate-Kept s (node_assign key index value) =
        then-After s (evaluate garbage s value) _ (evaluate-Kept s value) λ v.
          Ends-branch (After v.1) (is_defined (get_symbol v.1.symbol_table key)) _ _
            (λ found.
              Ends-branch (After v.1) (is_null index) _ _ (λ plain. assign-After v.1 key v.0)
                (λ indexed.
                  then-After v.1 (evaluate garbage v.1 index) _ (evaluate-Kept v.1 index)
                    (λ i. assign_element-After i.1 key i.0 v.0)))
            (λ missing. Kept-refl v.1.symbol_table)
    evaluate-Kept s (node_list content) =
        then-After s (evaluate_all garbage s content) _ (evaluate_all-Kept s content)
          (λ r. Kept-refl r.1.symbol_table)
    evaluate-Kept s (node_command path arguments) =
        then-After s (evaluate garbage s path) _ (evaluate-Kept s path) λ p.
          then-After p.1 (evaluate_all garbage p.1 arguments) _ (evaluate_all-Kept p.1 arguments)
            (λ a. run_command-After a.1 p.0 a.0)

    pub evaluate_all-Kept :
        (s : Interpreter) (nodes : Nodes) → Ends (After s) (evaluate_all garbage s nodes)
    evaluate_all-Kept s no_nodes = Kept-refl s.symbol_table
    evaluate_all-Kept s (next_node n ns) =
        then-After s (evaluate garbage s n) _ (evaluate-Kept s n) λ v.
          then-After v.1 (evaluate_all garbage v.1 ns) _ (evaluate_all-Kept v.1 ns)
            λ vs. Kept-refl vs.1.symbol_table

  -- Running a program on a started table keeps what the lines before it have declared.
  pub interpret-Kept :
      (s : Interpreter) (nodes : Nodes)
      → IsStarted s.symbol_table
      → Ends (λ r. Kept s.symbol_table r.1.symbol_table) (interpret garbage s nodes)
  unfolding interpret
  interpret-Kept s nodes h =
      rw (clear-IsStarted s.symbol_table h)
        (evaluate_all-Kept (record s { symbol_table = s.symbol_table }) nodes)
