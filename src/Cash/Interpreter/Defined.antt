-- ===== src/Cash/Interpreter/Defined.antt =====
-- No uninitialised `int` is used: on a sound tree the evaluation does not depend on what it holds.
use radish_os.Prelude.{ℕ, ◌≡◌, refl, ap, inl, inr, true, false, ◌||◌, Bool-cases, arith}
use radish_os.Outcome.{ok, >>=_congr, branch_congr}
use radish_os.Cash.Token.{TokenType, ◌is◌, plus, minus, star, slash}
use radish_os.Cash.Ast.{
  Node, Nodes, nullptr, node_var_decl, node_const_decl, node_unary_op, node_binary_op, node_integer,
  node_bool, node_name, node_string, node_assign, node_list, node_command, no_nodes, next_node,
  is_null,
}
use radish_os.Cash.Word.{atoi}
use radish_os.Cash.Value.{EvalValue, string_value, to_int}
use radish_os.Cash.Symbol.{is_defined, get_symbol}
use radish_os.Cash.Parser.Sound.{IsSound, IsSoundOrNull, AllSound, is_unary, is_binary}
use radish_os.Cash.Interpreter.{
  Interpreter, evaluate, evaluate_all, interpret, unary, binary, binary_ints, calculate, is_test,
}

unary-defined :
    (g h : ℕ) (op : TokenType) (v : EvalValue) → is_unary op ≡ true → unary g op v ≡ unary h op v
unary-defined g h op v k = ground (arith, k)

-- a binary operator that is no test is one of four
rest_binary :
    (op : TokenType)
    → is_binary op ≡ true
    → is_test op ≡ false
    → (op is plus || op is minus || op is star || op is slash) ≡ true
rest_binary op k other = ground (arith, k, other)

calculate-defined :
    (g h : ℕ) (op : TokenType) (l r : ℕ)
    → (op is plus || op is minus || op is star || op is slash) ≡ true
    → calculate g op l r ≡ calculate h op l r
calculate-defined g h op l r k = elim (Bool-cases (op is plus)) [
  | inl sum ↦ rw sum refl
  | inr a ↦ elim (Bool-cases (op is minus)) [
    | inl difference ↦ rw (a, difference) refl
    | inr b ↦ elim (Bool-cases (op is star)) [
      | inl product ↦ rw (a, b, product) refl
      | inr c ↦
          let quotient : op is slash ≡ true = ground (arith, k, a, b, c) in
          rw (a, b, c, quotient) refl
    ]
  ]
]

binary_ints-defined :
    (g h : ℕ) (op : TokenType) (l r : ℕ)
    → is_binary op ≡ true
    → binary_ints g op l r ≡ binary_ints h op l r
binary_ints-defined g h op l r k = elim (Bool-cases (is_test op)) [
  | inl test ↦ rw test refl
  | inr other ↦ rw other (calculate-defined g h op l r (rest_binary op k other))
]

binary-defined :
    (g h : ℕ) (op : TokenType) (v w : EvalValue)
    → is_binary op ≡ true
    → binary g op v w ≡ binary h op v w
binary-defined g h op (string_value s) (string_value t) k =
    rw (binary_ints-defined g h op (atoi s) (atoi t) k) refl
binary-defined g h op v w k = binary_ints-defined g h op (to_int v) (to_int w) k

is_null_lem : (node : Node) → is_null node ≡ true → node ≡ nullptr
is_null_lem nullptr k = refl
is_null_lem node k = ground (arith, k)

module _ (g h : ℕ) where
  or_null :
      (s : Interpreter) (node : Node)
      → IsSoundOrNull node
      → (IsSound node → evaluate g s node ≡ evaluate h s node)
      → evaluate g s node ≡ evaluate h s node
  unfolding evaluate
  or_null s node (inl k) ih = rw (is_null_lem node k) refl
  or_null s node (inr k) ih = ih k

  mutual
    unfolding evaluate

    -- On a sound tree the value of an `int` that nothing has been assigned to plays no part: the
    -- evaluation is the same whatever it is.
    pub evaluate-defined :
        (s : Interpreter) (node : Node) → IsSound node → evaluate g s node ≡ evaluate h s node
    evaluate-defined s nullptr k = absurd k
    evaluate-defined s (node_var_decl key value) k =
        >>=_congr _ _ _ _ (or_null s value k (evaluate-defined s value)) (λ r. refl)
    evaluate-defined s (node_const_decl key value) k =
        >>=_congr _ _ _ _ (or_null s value k (evaluate-defined s value)) (λ r. refl)
    evaluate-defined s (node_unary_op value op) k =
        >>=_congr _ _ _ _ (evaluate-defined s value k.0)
          (λ r. ap (λ (v : EvalValue). ok (v, r.1)) (unary-defined g h op r.0 k.1))
    evaluate-defined s (node_binary_op left right op) k =
        >>=_congr _ _ _ _ (evaluate-defined s left k.0) λ l.
          >>=_congr _ _ _ _ (evaluate-defined l.1 right k.1)
            λ r. >>=_congr _ _ _ _ (binary-defined g h op l.0 r.0 k.2) (λ v. refl)
    evaluate-defined s (node_integer digits) k = refl
    evaluate-defined s (node_bool word) k = refl
    evaluate-defined s (node_string text) k = refl
    evaluate-defined s (node_name key fallback index) k =
        branch_congr (is_defined (get_symbol s.symbol_table key)) _ _ _ _
          (branch_congr (is_null index) _ _ _ _ refl
            (>>=_congr _ _ _ _ (or_null s index k (evaluate-defined s index)) (λ i. refl)))
          refl
    evaluate-defined s (node_assign key index value) k =
        >>=_congr _ _ _ _ (evaluate-defined s value k.1) λ v.
          branch_congr (is_defined (get_symbol v.1.symbol_table key)) _ _ _ _
            (branch_congr (is_null index) _ _ _ _ refl
              (>>=_congr _ _ _ _ (or_null v.1 index k.0 (evaluate-defined v.1 index)) (λ i. refl)))
            refl
    evaluate-defined s (node_list content) k =
        >>=_congr _ _ _ _ (evaluate_all-defined s content k) (λ r. refl)
    evaluate-defined s (node_command path arguments) k =
        >>=_congr _ _ _ _ (evaluate-defined s path k.0)
          λ p. >>=_congr _ _ _ _ (evaluate_all-defined p.1 arguments k.1) λ a. refl

    pub evaluate_all-defined :
        (s : Interpreter) (nodes : Nodes)
        → AllSound nodes
        → evaluate_all g s nodes ≡ evaluate_all h s nodes
    evaluate_all-defined s no_nodes k = refl
    evaluate_all-defined s (next_node n ns) k =
        >>=_congr _ _ _ _ (evaluate-defined s n k.0)
          λ v. >>=_congr _ _ _ _ (evaluate_all-defined v.1 ns k.1) λ vs. refl

  pub interpret-defined :
      (s : Interpreter) (nodes : Nodes) → AllSound nodes → interpret g s nodes ≡ interpret h s nodes
  unfolding interpret
  interpret-defined s nodes k = >>=_congr _ _ _ _ refl (λ table. evaluate_all-defined _ nodes k)
