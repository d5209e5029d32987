-- ===== src/Cash/Program/Whole.antt =====
-- The parser as a whole: it ends, and the trees it gives are sound.
use radish_os.Prelude.{
  ℕ, zero, suc, ◌-◌, ◌<◌, ◌≡◌, refl, subst, false, Option, none, some, List, [], arith, length,
}
use radish_os.Outcome.Missing.{Ends, Ends->>=, Ends-map, Ends-branch}
use radish_os.Cash.Token.{Token, name, equal, var, const, raw_line}
use radish_os.Cash.Ast.{Node, Nodes, node_var_decl, node_const_decl, no_nodes, push_node, is_null}
use radish_os.Cash.Command.{Words, no_words}
use radish_os.Cash.Command.Split.{SoundPath, SoundWords, split_line-SoundWords}
use radish_os.Cash.Program.{
  command_of, parse_command, depth, parse_declaration, parse_decl, parse_node, parse_loop, parse,
}
use radish_os.Cash.Parser.{Parser, parse_expr, expect, step, advance, at_end}
use radish_os.Cash.Parser.Sound.{IsSound, IsSoundOrNull, AllSound, not_null, push_node-AllSound}
use radish_os.Cash.Parser.Moves.{
  Moved, Stands, Moved-null, Moved-node, Moved-back, advance_lem, error_before-Moved,
  syntax_error-Moved, or_else-Moved,
}
use radish_os.Cash.Parser.Enough.{Enough}
use radish_os.Cash.Parser.Enough.Steps

command_of-Moved :
    (n c : ℕ) (tok : Token) (words : Words) (s : Parser)
    → Stands n (suc c) s
    → SoundWords words
    → Ends (Moved n c) (command_of tok words s)
unfolding command_of
command_of-Moved n c tok words s h k = made words.path refl
  where
    made : (o : Option Node) → words.path ≡ o → Ends (Moved n c) (command_of tok words s)
    made none e = rw e (
        syntax_error-Moved n c tok s (record { same = h.same; forward = omega (arith, h.forward) }))
    made (some p) e =
        let path = subst (λ (o : Option Node). SoundPath o) e k.0 in
        rw e (Moved-node n c _ s h (path, k.1))

parse_command-Moved :
    (n : ℕ) (s : Parser) → length s.tokens ≡ n → Ends (Moved n s.token_cursor) (parse_command s)
unfolding parse_command
parse_command-Moved n s e =
    Ends-branch (Moved n s.token_cursor) (at_end s) _ _
      (λ end. error_before-Moved n s.token_cursor s (record { same = e; forward = omega arith }))
      (λ more. Ends->>= (Moved n s.token_cursor) (advance s) _ (advance_lem n s e) λ t a.
        command_of-Moved n s.token_cursor t.0 _ t.1
          (record { same = a.same; forward = omega (arith, a.at) })
          (split_line-SoundWords t.0.value false [] no_words (tt, tt)))

more_tokens : (s : Parser) → at_end s ≡ false → s.token_cursor < length s.tokens
more_tokens s h = ground arith

module _ (stale : Node) (unset : IsSoundOrNull stale) where
  enough : (fuel : ℕ) → Enough stale fuel
  enough zero = record {
    expr = λ n s e h. absurd (omega arith);
    exprs = λ n c node s e lt sound h. absurd (omega arith);
    term = λ n s e h. absurd (omega arith);
    terms = λ n c node s e lt sound h. absurd (omega arith);
    primary = λ n s e h. absurd (omega arith);
    parenthesis = λ n s e lt h. absurd (omega arith);
    operand = λ n s e h. absurd (omega arith);
    unary = λ n s e found h. absurd (omega arith);
    named = λ n s e h. absurd (omega arith);
    assign = λ n s e h. absurd (omega arith);
    assigned = λ n start key index s e lt sound h. absurd (omega arith);
    list = λ n s e h. absurd (omega arith);
    lists = λ n c content s e lt sound h. absurd (omega arith);
  }
  enough (suc fuel) =
      let ih = enough fuel in
      record {
        expr = Steps.expr stale unset fuel ih;
        exprs = Steps.exprs stale unset fuel ih;
        term = Steps.term stale unset fuel ih;
        terms = Steps.terms stale unset fuel ih;
        primary = Steps.primary stale unset fuel ih;
        parenthesis = Steps.parenthesis stale unset fuel ih;
        operand = Steps.operand stale unset fuel ih;
        unary = Steps.unary stale unset fuel ih;
        named = Steps.named stale unset fuel ih;
        assign = Steps.assign stale unset fuel ih;
        assigned = Steps.assigned stale unset fuel ih;
        list = Steps.list stale unset fuel ih;
        lists = Steps.lists stale unset fuel ih;
      }

  parse_expr-Moved :
      (n : ℕ) (s : Parser)
      → length s.tokens ≡ n
      → Ends (Moved n s.token_cursor) (parse_expr stale (depth s) s)
  unfolding depth
  parse_expr-Moved n s e = (enough (depth s)).expr n s e (omega arith)

  parse_declaration-Moved :
      (n : ℕ) (make : List ℕ → Node → Node) (s : Parser)
      → length s.tokens ≡ n
      → ((key : List ℕ) (v : Node) → IsSoundOrNull v → IsSound (make key v))
      → Ends (Moved n s.token_cursor) (parse_declaration stale make s)
  unfolding parse_declaration step depth
  parse_declaration-Moved n make s e k =
      let c = s.token_cursor in
      Ends-branch (Moved n c) (expect s name) _ _
        (λ found. Ends->>= (Moved n c) (advance s) _ (advance_lem n s e) λ key a.
          Ends-branch (Moved n c) (expect key.1 equal) _ _
            (λ value.
              Ends->>= (Moved n c) (parse_expr stale (depth s) (step key.1)) _
                ((enough (depth s)).expr n (step key.1) a.same (omega arith))
                λ v m.
                  Moved-node n c (make key.0.value v.0) v.1
                    (record { same = m.same; forward = omega (arith, a.at, m.forward) })
                    (k key.0.value v.0 m.sound))
            (λ other.
              Moved-null n c key.1 (record { same = a.same; forward = omega (arith, a.at) })))
        (λ other. Moved-null n c s (record { same = e; forward = omega arith }))

  parse_decl-Moved :
      (n : ℕ) (s : Parser)
      → length s.tokens ≡ n
      → Ends (Moved n s.token_cursor) (parse_decl stale s)
  unfolding parse_decl step
  parse_decl-Moved n s e =
      let c = s.token_cursor in
      Ends-branch (Moved n c) (at_end s) _ _
        (λ end. error_before-Moved n c s (record { same = e; forward = omega arith }))
        (λ more.
          Ends-branch (Moved n c) (expect s var) _ _
            (λ found.
              Ends-map _ (parse_declaration-Moved n node_var_decl (step s) e (λ key v h. h))
                (λ r. Moved-back n c (suc c) r (omega arith)))
            (λ other.
              Ends-branch (Moved n c) (expect s const) _ _
                (λ found.
                  Ends-map _ (parse_declaration-Moved n node_const_decl (step s) e (λ key v h. h))
                    (λ r. Moved-back n c (suc c) r (omega arith)))
                (λ none. Moved-null n c s (record { same = e; forward = omega arith }))))

  parse_node-Moved :
      (n : ℕ) (s : Parser)
      → length s.tokens ≡ n
      → Ends (Moved n s.token_cursor) (parse_node stale s)
  unfolding parse_node
  parse_node-Moved n s e = or_else-Moved n s.token_cursor _ _ (parse_decl-Moved n s e) λ t a.
      or_else-Moved n t.token_cursor _ _
        (Ends-branch (Moved n t.token_cursor) (expect t raw_line) _ _
          (λ found. parse_command-Moved n t a.same)
          (λ other.
            Moved-null n t.token_cursor t (record { same = a.same; forward = omega arith })))
        λ u b. parse_expr-Moved n u b.same

  parse_loop-AllSound :
      (fuel n : ℕ) (nodes : Nodes) (s : Parser)
      → length s.tokens ≡ n
      → AllSound nodes
      → n - s.token_cursor < fuel
      → Ends (λ r. AllSound r.0) (parse_loop stale fuel nodes s)
  unfolding parse_loop
  parse_loop-AllSound zero n nodes s e sound h = absurd (omega arith)
  parse_loop-AllSound (suc fuel) n nodes s e sound h =
      Ends-branch _ (at_end s) _ _ (λ end. sound)
        λ more. Ends->>= _ (parse_node stale s) _ (parse_node-Moved n s e) λ r m.
          Ends-branch _ (is_null r.0) _ _ (λ null. sound)
            λ node.
              parse_loop-AllSound fuel n (push_node nodes r.0) r.1 m.same
                (push_node-AllSound nodes r.0 sound (not_null r.0 m.sound node))
                (omega (arith, m.passed node, more_tokens s more))

  -- Whatever the tokens are, `parse` ends: by returning, or by the exception of a token that is
  -- not there. The trees it returns are sound: each operator is one that the interpreter knows,
  -- and a pointer is null only where it is an index or the value of a declaration. The
  -- uninitialised pointer is taken to be null or sound. (`Ends` is that of Outcome.Missing.)
  pub parse-AllSound : (s : Parser) → Ends (λ r. AllSound r.0) (parse stale s)
  unfolding parse
  parse-AllSound s =
      parse_loop-AllSound (suc (length s.tokens)) (length s.tokens) no_nodes _ refl tt (omega arith)
