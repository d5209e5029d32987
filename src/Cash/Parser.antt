-- ===== src/Cash/Parser.antt =====
-- userspace/cash/cash/parser.cpp: from tokens to a tree. A routine returns the node, or `nullptr`,
-- and the parser after it. `tokens[cursor]` throws behind the last token. The calls go round in
-- circles, so they run on fuel, the depth of the calls.
pub mod Sound
pub mod Moves
pub mod Enough
use radish_os.Prelude.{
  ℕ, zero, suc, ◌+◌, ◌*◌, Bool, true, false, not, ◌&&◌, ◌||◌, Option, none, some, List, [], ◌∷◌,
  ◌++◌, ◌==◌, ltb, leb, if◌then◌else◌, length,
}
use radish_os.Outcome.{Outcome, ok, panic, index_out_of_range, out_of_fuel, ◌>>=◌, branch}
use radish_os.Cash.Text.{is_space, is_empty}
use radish_os.Cash.Token.{
  Position, Token, TokenType, ◌is◌, integer, name, string, raw_line, plus, minus, star, slash,
  equal, and_word, or_word, xor_word, not_word, equal_equal, not_equal, lesser_than, greater_than,
  lesser_than_equal, greater_than_equal, left_parenthesis, right_parenthesis, left_square_brace,
  right_square_brace, comma, var, const, true_word, false_word,
}
use radish_os.Cash.Ast.{
  Node, Nodes, nullptr, node_var_decl, node_const_decl, node_unary_op, node_binary_op, node_integer,
  node_bool, node_name, node_string, node_assign, node_list, node_command, no_nodes, push_node,
  is_null,
}

-- `syntaxError`
pub record InvalidSyntax : Type 0 where
  pub str : List ℕ
  pub pos : Position

pub record Parser : Type 0 where
  pub tokens : List Token
  pub token_cursor : ℕ
  pub messages : List InvalidSyntax

abbrev pub Parsed : Type 0
Parsed = Outcome (Node × Parser)

unfoldable pub token_at : List Token → ℕ → Outcome Token
token_at [] i = panic index_out_of_range
token_at (t ∷ ts) zero = ok t
token_at (t ∷ ts) (suc i) = token_at ts i

abbrev pub at_end : Parser → Bool
at_end self = leb (length self.tokens) self.token_cursor

unfoldable pub type_is : List Token → ℕ → TokenType → Bool
type_is [] i type = false
type_is (t ∷ ts) zero type = t.type is type
type_is (t ∷ ts) (suc i) type = type_is ts i type

abbrev pub expect : Parser → TokenType → Bool
unfolding type_is
expect self type = type_is self.tokens self.token_cursor type

abbrev pub current_token : Parser → Outcome Token
unfolding token_at
current_token self = token_at self.tokens self.token_cursor

-- `tokens[token_cursor - 1]`, where 0 - 1 wraps to an index that throws
unfoldable pub precedent_token : Parser → Outcome Token
unfolding token_at
precedent_token self = elim self.token_cursor [
  | zero ↦ panic index_out_of_range
  | suc i ↦ token_at self.tokens i
]

unfoldable pub step : Parser → Parser
step self = record self { token_cursor = suc self.token_cursor }

-- a reference to the token, which is used behind the text only where `expect` has looked first
abbrev pub advance : Parser → Outcome (Token × Parser)
unfolding token_at step
advance self = current_token self >>= λ t. ok (t, step self)

-- `return nullptr`
abbrev pub fail : Parser → Parsed
fail self = ok (nullptr, self)

unfoldable pub syntax_error : Token → Parser → Parsed
syntax_error t self =
    fail (record self {
      messages = self.messages ++ (record { str = t.value; pos = t.position }) ∷ [];
    })

-- the errors at the token before, and at the present one
abbrev pub error_before : Parser → Parsed
unfolding precedent_token syntax_error
error_before self = precedent_token self >>= λ t. syntax_error t self

abbrev pub error_here : Parser → Parsed
unfolding token_at syntax_error
error_here self = current_token self >>= λ t. syntax_error t self

abbrev pub is_sum_op : Parser → Bool
unfolding type_is
is_sum_op self =
    expect self plus
    || expect self minus
    || expect self or_word
    || expect self xor_word
    || expect self equal_equal
    || expect self not_equal
    || expect self lesser_than
    || expect self lesser_than_equal
    || expect self greater_than
    || expect self greater_than_equal

abbrev pub is_product_op : Parser → Bool
unfolding type_is
is_product_op self = expect self star || expect self slash || expect self and_word

abbrev pub is_unary_op : Parser → Bool
unfolding type_is
is_unary_op self = expect self plus || expect self minus || expect self not_word

-- `parseInteger`, `parseBool` and `parseString`: one token gives the node
abbrev pub leaf : (List ℕ → Node) → Bool → Parser → Parsed
unfolding token_at step
leaf make found self =
    branch found (λ _. advance self >>= λ a. ok (make a.0.value, a.1)) (λ _. fail self)

pub parse_integer : Parser → Parsed
unfolding type_is token_at step
parse_integer self = leaf node_integer (expect self integer) self

pub parse_bool : Parser → Parsed
unfolding type_is token_at step
parse_bool self = leaf node_bool (expect self true_word || expect self false_word) self

pub parse_string : Parser → Parsed
unfolding type_is token_at step
parse_string self = leaf node_string (expect self string) self

-- `if (Node *n = first()) return n; else return second()`
abbrev pub or_else : Parsed → (Parser → Parsed) → Parsed
or_else first second = first >>= λ r. branch (is_null r.0) (λ _. second r.1) (λ _. ok r)

-- `stale` is what the pointer `index` of `parseAssign` holds when nothing has been assigned to it
module _ (stale : Node) where
  unfoldable mutual
    unfolding type_is token_at step precedent_token syntax_error parse_integer parse_bool
        parse_string

    pub parse_expr : ℕ → Parser → Parsed
    parse_expr zero self = out_of_fuel
    parse_expr (suc fuel) self = parse_term fuel self >>= λ l.
        branch (is_null l.0) (λ _. fail l.1) (λ _. expr_loop fuel l.0 l.1)

    -- the loop of `parseExpr`
    pub expr_loop : ℕ → Node → Parser → Parsed
    expr_loop zero node self = out_of_fuel
    expr_loop (suc fuel) node self =
        branch (is_sum_op self)
          (λ _. advance self >>= λ op. parse_term fuel op.1 >>= λ r.
            branch (is_null r.0) (λ _. fail r.1)
              (λ _. expr_loop fuel (node_binary_op node r.0 op.0.type) r.1))
          (λ _. ok (node, self))

    pub parse_term : ℕ → Parser → Parsed
    parse_term zero self = out_of_fuel
    parse_term (suc fuel) self = parse_primary_expr fuel self >>= λ l.
        branch (is_null l.0) (λ _. fail l.1) (λ _. term_loop fuel l.0 l.1)

    -- the loop of `parseTerm`
    pub term_loop : ℕ → Node → Parser → Parsed
    term_loop zero node self = out_of_fuel
    term_loop (suc fuel) node self =
        branch (is_product_op self)
          (λ _. advance self >>= λ op. parse_primary_expr fuel op.1 >>= λ r.
            branch (is_null r.0) (λ _. fail r.1)
              (λ _. term_loop fuel (node_binary_op node r.0 op.0.type) r.1))
          (λ _. ok (node, self))

    pub parse_primary_expr : ℕ → Parser → Parsed
    parse_primary_expr zero self = out_of_fuel
    parse_primary_expr (suc fuel) self =
        branch (at_end self) (λ _. error_before self)
          (λ _.
            branch (is_unary_op self) (λ _. parse_unary_op fuel self)
              (λ _.
                branch (expect self left_parenthesis) (λ _. parse_parenthesis fuel self)
                  (λ _. parse_operand fuel self)))

    -- `parsePrimaryExpr`, from the left parenthesis
    pub parse_parenthesis : ℕ → Parser → Parsed
    parse_parenthesis zero self = out_of_fuel
    parse_parenthesis (suc fuel) self = parse_expr fuel (step self) >>= λ inner.
        branch (expect inner.1 right_parenthesis) (λ _. ok (inner.0, step inner.1))
          (λ _. error_before inner.1)

    -- `parsePrimaryExpr`, the rest
    pub parse_operand : ℕ → Parser → Parsed
    parse_operand zero self = out_of_fuel
    parse_operand (suc fuel) self = or_else (parse_integer self) λ s. or_else (parse_bool s) λ s.
        or_else (parse_assign fuel s)
          λ s. or_else (parse_string s) λ s. or_else (parse_list fuel s) λ s. parse_name fuel s

    pub parse_unary_op : ℕ → Parser → Parsed
    parse_unary_op zero self = out_of_fuel
    parse_unary_op (suc fuel) self = advance self >>= λ op. parse_primary_expr fuel op.1 >>= λ v.
        branch (is_null v.0) (λ _. fail v.1) (λ _. ok (node_unary_op v.0 op.0.type, v.1))

    -- The bracket behind the index is looked at but not passed. A name has no fallback.
    pub parse_name : ℕ → Parser → Parsed
    parse_name zero self = out_of_fuel
    parse_name (suc fuel) self =
        branch (expect self name)
          (λ _. advance self >>= λ key.
            branch (expect key.1 left_square_brace)
              (λ _. parse_expr fuel (step key.1) >>= λ index.
                branch (expect index.1 right_square_brace)
                  (λ _. ok (node_name key.0.value [] index.0, index.1)) (λ _. error_here index.1))
              (λ _. ok (node_name key.0.value [] nullptr, key.1)))
          (λ _. fail self)

    pub parse_assign : ℕ → Parser → Parsed
    parse_assign zero self = out_of_fuel
    parse_assign (suc fuel) self =
        branch (expect self name)
          (λ _. advance self >>= λ key.
            branch (expect key.1 left_square_brace)
              (λ _. parse_expr fuel (step key.1) >>= λ index.
                branch (expect index.1 right_square_brace)
                  (λ _. parse_assigned fuel self key.0.value index.0 (step index.1))
                  (λ _. error_here index.1))
              (λ _. parse_assigned fuel self key.0.value stale key.1))
          (λ _. fail self)

    -- `parseAssign`, from the `=`; without it, or without a value, back to where the name stands
    pub parse_assigned : ℕ → Parser → List ℕ → Node → Parser → Parsed
    parse_assigned zero start key index self = out_of_fuel
    parse_assigned (suc fuel) start key index self =
        branch (expect self equal)
          (λ _. parse_expr fuel (step self) >>= λ v.
            branch (is_null v.0) (λ _. fail (record v.1 { token_cursor = start.token_cursor }))
              (λ _. ok (node_assign key index v.0, v.1)))
          (λ _. fail (record self { token_cursor = start.token_cursor }))

    pub parse_list : ℕ → Parser → Parsed
    parse_list zero self = out_of_fuel
    parse_list (suc fuel) self =
        branch (expect self left_square_brace)
          (λ _.
            branch (expect (step self) right_square_brace)
              (λ _. ok (node_list no_nodes, step (step self)))
              (λ _. list_loop fuel no_nodes (step self)))
          (λ _. fail self)

    -- the loop of `parseList`, and the bracket behind it
    pub list_loop : ℕ → Nodes → Parser → Parsed
    list_loop zero content self = out_of_fuel
    list_loop (suc fuel) content self = parse_expr fuel self >>= λ e.
        branch (is_null e.0) (λ _. fail e.1)
          (λ _.
            branch (at_end e.1) (λ _. error_before e.1)
              (λ _.
                branch (expect e.1 comma) (λ _. list_loop fuel (push_node content e.0) (step e.1))
                  (λ _.
                    branch (expect e.1 right_square_brace)
                      (λ _. ok (node_list (push_node content e.0), step e.1))
                      (λ _. error_here e.1))))

-- `Parser(tokens)`, `setTokens`
abbrev pub new_parser : List Token → Parser
new_parser tokens = record { tokens = tokens; token_cursor = 0; messages = [] }

abbrev pub set_tokens : Parser → List Token → Parser
set_tokens self tokens = record self { tokens = tokens }
