-- ===== src/Cash/Parser/Enough/Steps.antt =====
-- Each routine of the parser, with one step of fuel more than what it calls.
use radish_os.Prelude.{
  ℕ, suc, ◌+◌, ◌-◌, ◌*◌, ◌≤◌, ◌<◌, ◌≡◌, refl, sym, ◌∙◌, inl, true, [], arith, length,
}
use radish_os.Outcome.Missing.{Ends, Ends->>=, Ends-branch}
use radish_os.Cash.Token.{
  left_parenthesis, right_parenthesis, name, equal, left_square_brace, right_square_brace, comma,
}
use radish_os.Cash.Ast.{
  Node, nullptr, node_unary_op, node_binary_op, node_name, node_list, node_assign, no_nodes,
  push_node, is_null,
}
use radish_os.Cash.Parser.{
  Parser, parse_expr, expr_loop, parse_term, term_loop, parse_primary_expr, parse_parenthesis,
  parse_operand, parse_unary_op, parse_name, parse_assign, parse_assigned, parse_list, list_loop,
  expect, step, advance, is_sum_op, is_product_op, is_unary_op, at_end,
}
use radish_os.Cash.Parser.Sound.{
  IsSoundOrNull, not_null, sum_binary, product_binary, push_node-AllSound,
}
use radish_os.Cash.Parser.Moves.{
  Moved, Stands, Moved-null, Moved-node, Moved-back, used-Moved, is_sum-kind, is_product-kind,
  is_unary-kind, expect-below, advance_lem, error_here-Moved, error_before-Moved,
  parse_integer-Moved, parse_bool-Moved, parse_string-Moved, or_else-Moved,
}
use radish_os.Cash.Parser.Enough.{Run, Loop, ListLoop, Assigned, Enough}

module _ (stale : Node) (unset : IsSoundOrNull stale) (fuel : ℕ) (ih : Enough stale fuel) where
  pub expr : Run 5 (parse_expr stale) (suc fuel)
  unfolding parse_expr
  expr n s e h =
      Ends->>= (Moved n s.token_cursor) (parse_term stale fuel s) _ (ih.term n s e (omega arith))
        (λ l m. used-Moved n s.token_cursor l _ m (λ sound far.
          ih.exprs n s.token_cursor l.0 l.1 m.same far sound (omega (arith, m.forward))))

  pub term : Run 4 (parse_term stale) (suc fuel)
  unfolding parse_term
  term n s e h =
      Ends->>= (Moved n s.token_cursor) (parse_primary_expr stale fuel s) _
        (ih.primary n s e (omega arith))
        (λ l m. used-Moved n s.token_cursor l _ m (λ sound far.
          ih.terms n s.token_cursor l.0 l.1 m.same far sound (omega (arith, m.forward))))

  pub exprs : Loop (expr_loop stale) (suc fuel)
  unfolding expr_loop advance is_sum_op
  exprs n c node s e lt sound h =
      Ends-branch (Moved n c) (is_sum_op s) _ _
        (λ found. Ends->>= (Moved n c) (advance s) _ (advance_lem n s e) λ op a.
          Ends->>= (Moved n c) (parse_term stale fuel op.1) _
            (ih.term n op.1 a.same (omega (arith, a.at, a.below)))
            λ r m.
              used-Moved n c r _ (Moved-back n c op.1.token_cursor r (omega (arith, a.at)) m)
                λ right far.
                  ih.exprs n c (node_binary_op node r.0 op.0.type) r.1 m.same far
                    (sound, right, sum_binary op.0.type (sym (is_sum-kind n s op a) ∙ found))
                    (omega (arith, a.at, a.below, m.forward)))
        (λ other. Moved-node n c node s (record { same = e; forward = lt }) sound)

  pub terms : Loop (term_loop stale) (suc fuel)
  unfolding term_loop advance is_product_op
  terms n c node s e lt sound h =
      Ends-branch (Moved n c) (is_product_op s) _ _
        (λ found. Ends->>= (Moved n c) (advance s) _ (advance_lem n s e) λ op a.
          Ends->>= (Moved n c) (parse_primary_expr stale fuel op.1) _
            (ih.primary n op.1 a.same (omega (arith, a.at, a.below)))
            λ r m.
              used-Moved n c r _ (Moved-back n c op.1.token_cursor r (omega (arith, a.at)) m)
                λ right far.
                  ih.terms n c (node_binary_op node r.0 op.0.type) r.1 m.same far
                    (
                      sound,
                      right,
                      product_binary op.0.type (sym (is_product-kind n s op a) ∙ found),
                    )
                    (omega (arith, a.at, a.below, m.forward)))
        (λ other. Moved-node n c node s (record { same = e; forward = lt }) sound)

  pub primary : Run 3 (parse_primary_expr stale) (suc fuel)
  unfolding parse_primary_expr is_unary_op expect
  primary n s e h =
      Ends-branch (Moved n s.token_cursor) (at_end s) _ _
        (λ end. error_before-Moved n s.token_cursor s (record { same = e; forward = omega arith }))
        (λ more.
          Ends-branch (Moved n s.token_cursor) (is_unary_op s) _ _
            (λ found. ih.unary n s e found (omega arith))
            (λ binary.
              Ends-branch (Moved n s.token_cursor) (expect s left_parenthesis) _ _
                (λ found.
                  ih.parenthesis n s e (omega (arith, expect-below s.tokens s.token_cursor _ found))
                    (omega arith))
                (λ none. ih.operand n s e (omega arith))))

  pub unary :
      (n : ℕ) (s : Parser)
      → length s.tokens ≡ n
      → is_unary_op s ≡ true
      → 6 * (n - s.token_cursor) + 1 ≤ suc fuel
      → Ends (Moved n s.token_cursor) (parse_unary_op stale (suc fuel) s)
  unfolding parse_unary_op advance
  unary n s e found h = Ends->>= (Moved n s.token_cursor) (advance s) _ (advance_lem n s e) λ op a.
      Ends->>= (Moved n s.token_cursor) (parse_primary_expr stale fuel op.1) _
        (ih.primary n op.1 a.same (omega (arith, a.at, a.below)))
        λ v m.
          used-Moved n s.token_cursor v _
            (Moved-back n s.token_cursor op.1.token_cursor v (omega (arith, a.at)) m)
            λ sound far.
              Moved-node n s.token_cursor (node_unary_op v.0 op.0.type) v.1
                (record { same = m.same; forward = far })
                (sound, sym (is_unary-kind n s op a) ∙ found)

  pub operand : Run 2 (parse_operand stale) (suc fuel)
  unfolding parse_operand
  operand n s e h = or_else-Moved n s.token_cursor _ _ (parse_integer-Moved n s e) λ s1 a.
      or_else-Moved n s1.token_cursor _ _ (parse_bool-Moved n s1 a.same) λ s2 b.
        or_else-Moved n s2.token_cursor _ _
          (ih.assign n s2 b.same (omega (arith, a.forward, b.forward)))
          λ s3 c. or_else-Moved n s3.token_cursor _ _ (parse_string-Moved n s3 c.same) λ s4 d.
            or_else-Moved n s4.token_cursor _ _
              (ih.list n s4 d.same (omega (arith, a.forward, b.forward, c.forward, d.forward)))
              λ s5 f.
                ih.named n s5 f.same
                  (omega (arith, a.forward, b.forward, c.forward, d.forward, f.forward))

  pub parenthesis :
      (n : ℕ) (s : Parser)
      → length s.tokens ≡ n
      → s.token_cursor < n
      → 6 * (n - s.token_cursor) + 1 ≤ suc fuel
      → Ends (Moved n s.token_cursor) (parse_parenthesis stale (suc fuel) s)
  unfolding parse_parenthesis step
  parenthesis n s e lt h =
      Ends->>= (Moved n s.token_cursor) (parse_expr stale fuel (step s)) _
        (ih.expr n (step s) e (omega arith))
        λ inner m.
          Ends-branch (Moved n s.token_cursor) (expect inner.1 right_parenthesis) _ _
            (λ closed. record {
              same = m.same;
              forward = omega (arith, m.forward);
              passed = λ _. omega (arith, m.forward);
              sound = m.sound;
            })
            (λ missing.
              error_before-Moved n s.token_cursor inner.1
                (record { same = m.same; forward = omega (arith, m.forward) }))

  pub named : Run 1 (parse_name stale) (suc fuel)
  unfolding parse_name step advance expect
  named n s e h =
      Ends-branch (Moved n s.token_cursor) (expect s name) _ _
        (λ found. Ends->>= (Moved n s.token_cursor) (advance s) _ (advance_lem n s e) λ key a.
          Ends-branch (Moved n s.token_cursor) (expect key.1 left_square_brace) _ _
            (λ bracket.
              Ends->>= (Moved n s.token_cursor) (parse_expr stale fuel (step key.1)) _
                (ih.expr n (step key.1) a.same (omega (arith, a.at, a.below)))
                λ index m.
                  Ends-branch (Moved n s.token_cursor) (expect index.1 right_square_brace) _ _
                    (λ closed.
                      Moved-node n s.token_cursor (node_name key.0.value [] index.0) index.1
                        (record { same = m.same; forward = omega (arith, a.at, m.forward) })
                        m.sound)
                    (λ missing.
                      error_here-Moved n s.token_cursor index.1
                        (record { same = m.same; forward = omega (arith, a.at, m.forward) })))
            (λ plain.
              Moved-node n s.token_cursor (node_name key.0.value [] nullptr) key.1
                (record { same = a.same; forward = omega (arith, a.at) }) (inl refl)))
        (λ other. Moved-null n s.token_cursor s (record { same = e; forward = omega arith }))

  pub assign : Run 1 (parse_assign stale) (suc fuel)
  unfolding parse_assign step advance expect
  assign n s e h =
      Ends-branch (Moved n s.token_cursor) (expect s name) _ _
        (λ found. Ends->>= (Moved n s.token_cursor) (advance s) _ (advance_lem n s e) λ key a.
          Ends-branch (Moved n s.token_cursor) (expect key.1 left_square_brace) _ _
            (λ bracket.
              Ends->>= (Moved n s.token_cursor) (parse_expr stale fuel (step key.1)) _
                (ih.expr n (step key.1) a.same (omega (arith, a.at, a.below)))
                λ index m.
                  Ends-branch (Moved n s.token_cursor) (expect index.1 right_square_brace) _ _
                    (λ closed.
                      ih.assigned n s key.0.value index.0 (step index.1) m.same
                        (omega (arith, a.at, m.forward)) m.sound
                        (omega (arith, a.at, a.below, m.forward)))
                    (λ missing.
                      error_here-Moved n s.token_cursor index.1
                        (record { same = m.same; forward = omega (arith, a.at, m.forward) })))
            (λ plain.
              ih.assigned n s key.0.value stale key.1 a.same (omega (arith, a.at)) unset
                (omega (arith, a.at, a.below))))
        (λ other. Moved-null n s.token_cursor s (record { same = e; forward = omega arith }))

  pub assigned : Assigned (parse_assigned stale) (suc fuel)
  unfolding parse_assigned step expect
  assigned n start key index s e lt sound h =
      Ends-branch (Moved n start.token_cursor) (expect s equal) _ _
        (λ found.
          let below = expect-below s.tokens s.token_cursor equal found in
          Ends->>= (Moved n start.token_cursor) (parse_expr stale fuel (step s)) _
            (ih.expr n (step s) e (omega (arith, below)))
            λ v m.
              Ends-branch (Moved n start.token_cursor) (is_null v.0) _ _
                (λ null.
                  Moved-null n start.token_cursor _
                    (record { same = m.same; forward = omega arith }))
                (λ node.
                  Moved-node n start.token_cursor (node_assign key index v.0) v.1
                    (record { same = m.same; forward = omega (arith, m.forward) })
                    (sound, not_null v.0 m.sound node)))
        (λ other. Moved-null n start.token_cursor _ (record { same = e; forward = omega arith }))

  pub list : Run 1 (parse_list stale) (suc fuel)
  unfolding parse_list step expect
  list n s e h =
      Ends-branch (Moved n s.token_cursor) (expect s left_square_brace) _ _
        (λ found.
          let below = expect-below s.tokens s.token_cursor left_square_brace found in
          Ends-branch (Moved n s.token_cursor) (expect (step s) right_square_brace) _ _
            (λ closed.
              Moved-node n s.token_cursor (node_list no_nodes) (step (step s))
                (record { same = e; forward = omega arith }) tt)
            (λ missing.
              ih.lists n s.token_cursor no_nodes (step s) e (omega arith) tt
                (omega (arith, below))))
        (λ other. Moved-null n s.token_cursor s (record { same = e; forward = omega arith }))

  pub lists : ListLoop (list_loop stale) (suc fuel)
  unfolding list_loop step expect
  lists n c content s e lt sound h =
      Ends->>= (Moved n c) (parse_expr stale fuel s) _ (ih.expr n s e (omega arith)) λ x m.
        let here : Stands n c x.1 = record { same = m.same; forward = omega (arith, m.forward) } in
        used-Moved n c x _ (Moved-back n c s.token_cursor x (omega arith) m) λ node far.
          let all = push_node-AllSound content x.0 sound node in
          Ends-branch (Moved n c) (at_end x.1) _ _ (λ end. error_before-Moved n c x.1 here)
            λ more.
              Ends-branch (Moved n c) (expect x.1 comma) _ _
                (λ again.
                  let below = expect-below x.1.tokens x.1.token_cursor comma again in
                  ih.lists n c (push_node content x.0) (step x.1) m.same (omega (arith, m.forward))
                    all (omega (arith, below, m.forward, m.same)))
                (λ last.
                  Ends-branch (Moved n c) (expect x.1 right_square_brace) _ _
                    (λ closed.
                      Moved-node n c (node_list (push_node content x.0)) (step x.1)
                        (record { same = m.same; forward = omega (arith, far) }) all)
                    (λ missing. error_here-Moved n c x.1 here))
