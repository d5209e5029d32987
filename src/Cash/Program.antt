-- ===== src/Cash/Program.antt =====
-- userspace/cash/cash/parser.cpp: commands, declarations and whole programs.
pub mod Whole
pub mod Lines
use radish_os.Prelude.{ℕ, zero, suc, ◌*◌, Bool, true, false, Option, none, some, List, [], length}
use radish_os.Outcome.{Outcome, ok, out_of_fuel, ◌>>=◌, branch}
use radish_os.Cash.Token.{Token, name, equal, var, const, raw_line}
use radish_os.Cash.Ast.{
  Node, Nodes, node_var_decl, node_const_decl, node_command, no_nodes, push_node, is_null,
}
use radish_os.Cash.Parser.{
  Parser, Parsed, type_is, token_at, step, precedent_token, syntax_error, expect, at_end, advance,
  fail, error_before, parse_expr, or_else,
}
use radish_os.Cash.Command.{Words, no_words, split_line}

pub command_of : Token → Words → Parser → Parsed
unfolding syntax_error
command_of tok words self = elim words.path [
  | none ↦ syntax_error tok self
  | some p ↦ ok (node_command p words.arguments, self)
]

pub parse_command : Parser → Parsed
unfolding token_at step split_line command_of precedent_token syntax_error
parse_command self =
    branch (at_end self) (λ _. error_before self)
      (λ _. advance self >>= λ t. command_of t.0 (split_line t.0.value false [] no_words) t.1)

-- A call uses at most six steps of fuel before it passes a token.
abbrev pub depth : Parser → ℕ
depth self = 6 * suc (length self.tokens)

module _ (stale : Node) where
  -- `parseVarDecl` and `parseConstDecl`, which keep the value even when it is `nullptr`
  pub parse_declaration : (List ℕ → Node → Node) → Parser → Parsed
  unfolding type_is token_at step parse_expr
  parse_declaration make self =
      branch (expect self name)
        (λ _. advance self >>= λ key.
          branch (expect key.1 equal)
            (λ _.
              parse_expr stale (depth self) (step key.1) >>= λ v. ok (make key.0.value v.0, v.1))
            (λ _. fail key.1))
        (λ _. fail self)

  pub parse_decl : Parser → Parsed
  unfolding type_is step precedent_token syntax_error parse_declaration
  parse_decl self =
      branch (at_end self) (λ _. error_before self)
        (λ _.
          branch (expect self var) (λ _. parse_declaration node_var_decl (step self))
            (λ _.
              branch (expect self const) (λ _. parse_declaration node_const_decl (step self))
                (λ _. fail self)))

  -- the body of the loop of `parse`
  pub parse_node : Parser → Parsed
  unfolding type_is parse_decl parse_command parse_expr
  parse_node self = or_else (parse_decl self) λ s.
      or_else (branch (expect s raw_line) (λ _. parse_command s) (λ _. fail s))
        λ s. parse_expr stale (depth s) s

  pub parse_loop : ℕ → Nodes → Parser → Outcome (Nodes × Parser)
  unfolding parse_node
  parse_loop zero nodes self = out_of_fuel
  parse_loop (suc fuel) nodes self =
      branch (at_end self) (λ _. ok (nodes, self))
        (λ _. parse_node self >>= λ r.
          branch (is_null r.0) (λ _. ok (nodes, r.1))
            (λ _. parse_loop fuel (push_node nodes r.0) r.1))

  unfoldable pub parse : Parser → Outcome (Nodes × Parser)
  unfolding parse_loop
  parse self = parse_loop (suc (length self.tokens)) no_nodes (record self { token_cursor = 0 })
