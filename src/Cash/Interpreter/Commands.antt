-- ===== src/Cash/Interpreter/Commands.antt =====
-- The evaluation of a command whose words are no symbols.
use radish_os.Prelude.{ℕ, ◌<◌, ◌≡◌, refl, false, List, [], ◌∷◌, ◌++◌, arith, length}
use radish_os.Outcome.{ok, branch-false}
use radish_os.Cash.Ast.{node_command, no_nodes, next_node}
use radish_os.Cash.Value.{Values, string_value, no_values, next_value, null_value}
use radish_os.Cash.Value.Laws.{to_string-string}
use radish_os.Cash.Symbol.{Symbol, is_defined, get_symbol}
use radish_os.Cash.Symbol.Laws.{IsStarted, clear-IsStarted}
use radish_os.Cash.Command.{word_node}
use radish_os.Cash.Command.Split.{AllWords, word_nodes}
use radish_os.Cash.Interpreter.{
  Interpreter, evaluate, evaluate_all, interpret, run_command, strings_of,
}

-- no word of the line is the name of a symbol
abbrev pub AllUndefined : List Symbol → List (List ℕ) → Type 0
AllUndefined table [] = Unit {0}
AllUndefined table (w ∷ ws) = (is_defined (get_symbol table w) ≡ false) × AllUndefined table ws

abbrev strings : List (List ℕ) → Values
strings [] = no_values
strings (w ∷ ws) = next_value (string_value w) (strings ws)

strings_of-strings : (ws : List (List ℕ)) → strings_of (strings ws) ≡ ok ws
unfolding strings_of
strings_of-strings [] = refl
strings_of-strings (w ∷ ws) = rw (to_string-string w, strings_of-strings ws) refl

module _ (garbage : ℕ) where
  evaluate-word :
      (s : Interpreter) (w : List ℕ)
      → 0 < length w
      → is_defined (get_symbol s.symbol_table w) ≡ false
      → evaluate garbage s (word_node w) ≡ ok (string_value w, s)
  unfolding evaluate
  evaluate-word s [] h k = absurd (omega arith)
  evaluate-word s (c ∷ w) h k = branch-false _ _ _ k

  evaluate-words :
      (s : Interpreter) (ws : List (List ℕ))
      → AllWords ws
      → AllUndefined s.symbol_table ws
      → evaluate_all garbage s (word_nodes ws) ≡ ok (strings ws, s)
  unfolding evaluate_all
  evaluate-words s [] h k = refl
  evaluate-words s (w ∷ ws) h k = rw (evaluate-word s w h.0 k.0, evaluate-words s ws h.2 k.1) refl

  run_command-strings :
      (s : Interpreter) (w : List ℕ) (ws : List (List ℕ))
      → run_command s (string_value w) (strings ws)
        ≡ ok (null_value, record s { commands = s.commands ++ (w ∷ ws) ∷ [] })
  unfolding run_command
  run_command-strings s w ws = rw (to_string-string w, strings_of-strings ws) refl

  -- A command of words that are no symbols is run with the words as its arguments.
  pub evaluate-command :
      (s : Interpreter) (w : List ℕ) (ws : List (List ℕ))
      → AllWords (w ∷ ws)
      → AllUndefined s.symbol_table (w ∷ ws)
      → evaluate_all garbage s (next_node (node_command (word_node w) (word_nodes ws)) no_nodes)
        ≡ ok (next_value null_value no_values, record s { commands = s.commands ++ (w ∷ ws) ∷ [] })
  unfolding evaluate_all
  evaluate-command s w ws h k =
      rw (evaluate-word s w h.0 k.0, evaluate-words s ws h.2 k.1, run_command-strings s w ws) refl

  pub interpret-command :
      (s : Interpreter) (w : List ℕ) (ws : List (List ℕ))
      → AllWords (w ∷ ws)
      → IsStarted s.symbol_table
      → AllUndefined s.symbol_table (w ∷ ws)
      → interpret garbage s (next_node (node_command (word_node w) (word_nodes ws)) no_nodes)
        ≡ ok (next_value null_value no_values, record s { commands = s.commands ++ (w ∷ ws) ∷ [] })
  unfolding interpret
  interpret-command s w ws h start k =
      rw (clear-IsStarted s.symbol_table start) (evaluate-command s w ws h k)
