-- ===== src/Cash/Command.antt =====
-- userspace/cash/cash/parser.cpp: the words of a command line (`flushCommandWord`, and the loop of
-- `parseCommand`).
pub mod Split
use radish_os.Prelude.{
  ℕ, Bool, true, false, not, ◌&&◌, Option, none, some, List, [], ◌∷◌, ◌++◌, ◌==◌, if◌then◌else◌,
}
use radish_os.Cash.Text.{is_space}
use radish_os.Cash.Ast.{Node, Nodes, nullptr, node_name, no_nodes, push_node}

-- the words of a command: the path, once there is one, and the arguments
pub record Words : Type 0 where
  pub path : Option Node
  pub arguments : Nodes

abbrev pub no_words : Words
no_words = record { path = none; arguments = no_nodes }

abbrev pub word_node : List ℕ → Node
word_node curr = node_name curr curr nullptr

abbrev pub add_word : Words → List ℕ → Words
add_word words curr = elim words.path [
  | none ↦ record words { path = some (word_node curr) }
  | some p ↦ record words { arguments = push_node words.arguments (word_node curr) }
]

abbrev pub flush_command_word : Words → List ℕ → Words
flush_command_word words [] = words
flush_command_word words (c ∷ curr) = add_word words (c ∷ curr)

-- the loop of `parseCommand`, and the flush behind it
unfoldable pub split_line : List ℕ → Bool → List ℕ → Words → Words
split_line [] is_in_quotes curr words = flush_command_word words curr
split_line (c ∷ line) is_in_quotes curr words =
    if c == b'"'
    then split_line line (not is_in_quotes) curr words
    else if is_space c && not is_in_quotes
    then split_line line is_in_quotes [] (flush_command_word words curr)
    else split_line line is_in_quotes (curr ++ c ∷ []) words
