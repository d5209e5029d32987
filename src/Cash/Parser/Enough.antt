-- ===== src/Cash/Parser/Enough.antt =====
-- The fuel that the parser's calls need: six steps for each token that is left, and a few that depend
-- on the routine. The records state it for all routines at one amount of fuel.
pub mod Steps
use radish_os.Prelude.{ℕ, zero, suc, ◌+◌, ◌-◌, ◌*◌, ◌≤◌, ◌<◌, ◌≡◌, ◌⊎◌, true, List, arith, length}
use radish_os.Outcome.Missing.{Ends}
use radish_os.Cash.Ast.{Node, Nodes}
use radish_os.Cash.Parser.{
  Parser, Parsed, parse_expr, expr_loop, parse_term, term_loop, parse_primary_expr,
  parse_parenthesis, parse_operand, parse_unary_op, parse_name, parse_assign, parse_assigned,
  parse_list, list_loop, is_unary_op,
}
use radish_os.Cash.Parser.Sound.{IsSound, IsSoundOrNull, AllSound}
use radish_os.Cash.Parser.Moves.{Moved}

abbrev pub Run : ℕ → (ℕ → Parser → Parsed) → ℕ → Type 0
Run k routine fuel =
    (n : ℕ) (s : Parser)
    → length s.tokens ≡ n
    → 6 * (n - s.token_cursor) + k ≤ fuel
    → Ends (Moved n s.token_cursor) (routine fuel s)

-- a loop goes on with a node that stands behind the cursor `c`
abbrev pub Loop : (ℕ → Node → Parser → Parsed) → ℕ → Type 0
Loop routine fuel =
    (n c : ℕ) (node : Node) (s : Parser)
    → length s.tokens ≡ n
    → c < s.token_cursor
    → IsSound node
    → 6 * (n - s.token_cursor) + 1 ≤ fuel
    → Ends (Moved n c) (routine fuel node s)

abbrev pub ListLoop : (ℕ → Nodes → Parser → Parsed) → ℕ → Type 0
ListLoop routine fuel =
    (n c : ℕ) (content : Nodes) (s : Parser)
    → length s.tokens ≡ n
    → c < s.token_cursor
    → AllSound content
    → 6 * (n - s.token_cursor) + 6 ≤ fuel
    → Ends (Moved n c) (routine fuel content s)

abbrev pub Assigned : (ℕ → Parser → List ℕ → Node → Parser → Parsed) → ℕ → Type 0
Assigned routine fuel =
    (n : ℕ) (start : Parser) (key : List ℕ) (index : Node) (s : Parser)
    → length s.tokens ≡ n
    → start.token_cursor < s.token_cursor
    → IsSoundOrNull index
    → 6 * (n - s.token_cursor) + 1 ≤ fuel
    → Ends (Moved n start.token_cursor) (routine fuel start key index s)

pub record Enough (stale : Node) (fuel : ℕ) : Type 0 where
  pub expr : Run 5 (parse_expr stale) fuel
  pub exprs : Loop (expr_loop stale) fuel
  pub term : Run 4 (parse_term stale) fuel
  pub terms : Loop (term_loop stale) fuel
  pub primary : Run 3 (parse_primary_expr stale) fuel
  pub parenthesis :
      (n : ℕ) (s : Parser)
      → length s.tokens ≡ n
      → s.token_cursor < n
      → 6 * (n - s.token_cursor) + 1 ≤ fuel
      → Ends (Moved n s.token_cursor) (parse_parenthesis stale fuel s)
  pub operand : Run 2 (parse_operand stale) fuel
  pub unary :
      (n : ℕ) (s : Parser)
      → length s.tokens ≡ n
      → is_unary_op s ≡ true
      → 6 * (n - s.token_cursor) + 1 ≤ fuel
      → Ends (Moved n s.token_cursor) (parse_unary_op stale fuel s)
  pub named : Run 1 (parse_name stale) fuel
  pub assign : Run 1 (parse_assign stale) fuel
  pub assigned : Assigned (parse_assigned stale) fuel
  pub list : Run 1 (parse_list stale) fuel
  pub lists : ListLoop (list_loop stale) fuel
