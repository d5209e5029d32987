-- ===== src/Cash/Program/Lines.antt =====
-- A token that holds a command line is parsed to the command of its words.
use radish_os.Prelude.{ℕ, ◌≡◌, refl, List, [], ◌∷◌}
use radish_os.Outcome.{ok, ◌>>=◌}
use radish_os.Cash.Token.{raw_line, Position}
use radish_os.Cash.Ast.{Node, node_command, no_nodes, next_node, push_node}
use radish_os.Cash.Parser.{Parser, set_tokens}
use radish_os.Cash.Command.{word_node}
use radish_os.Cash.Command.Split.{AllWords, join_words, word_nodes, split_line-words}
use radish_os.Cash.Program.{command_of, parse_command, parse_decl, parse_node, parse_loop, parse}

-- One token that holds such a line is parsed to one command.
pub parse-line :
    (stale : Node) (self : Parser) (p : Position) (w : List ℕ) (ws : List (List ℕ))
    → AllWords (w ∷ ws)
    → (parse stale
          (set_tokens self (record { position = p; type = raw_line; value = join_words w ws } ∷ []))
        >>= λ r. ok r.0)
      ≡ ok (next_node (node_command (word_node w) (word_nodes ws)) no_nodes)
unfolding parse parse_loop parse_node parse_decl parse_command command_of push_node
parse-line stale self p w ws h = rw (split_line-words w ws h) refl
