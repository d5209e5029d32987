-- ===== src/Cash/Shell.antt =====
-- userspace/cash/cash/repl.cpp and main.cpp: a line of input through the lexer, the parser and the
-- interpreter, and the handling of the program's arguments.
pub mod Commands
pub mod Defined
use radish_os.Prelude.{ℕ, zero, suc, Bool, true, false, ◌||◌, List, [], ◌∷◌, ◌++◌, if◌then◌else◌}
use radish_os.Outcome.{Outcome, ok, ◌>>=◌, branch}
use radish_os.Cash.Text.{codes, str_eq, is_empty}
use radish_os.Cash.Ast.{Node}
use radish_os.Cash.Value.{
  EvalValue, is_null_value, Values, null_value, string_value, int_value, bool_value, vector_value,
  no_values, next_value, to_string,
}
use radish_os.Cash.Lexer.{Lexer, new_lexer, set_data, lex}
use radish_os.Cash.Parser.{Parser, new_parser, set_tokens}
use radish_os.Cash.Program.{parse}
use radish_os.Cash.Interpreter.{Interpreter, new_interpreter, interpret}

pub record Shell : Type 0 where
  pub lexer : Lexer
  pub parser : Parser
  pub interpreter : Interpreter
  -- what `Print::println` has written, without the messages of the parts
  pub output : List (List ℕ)

abbrev pub new_shell : Shell
new_shell = record {
  lexer = new_lexer [];
  parser = new_parser [];
  interpreter = new_interpreter;
  output = [];
}

abbrev pub print_line : Shell → List ℕ → Shell
print_line self line = record self { output = self.output ++ line ∷ [] }

-- the loop over `getEvalValues()`
pub print_values : Shell → Values → Outcome Shell
print_values self no_values = ok self
print_values self (next_value v vs) =
    branch (is_null_value v) (λ _. print_values self vs)
      (λ _. to_string v >>= λ s. print_values (print_line self s) vs)

abbrev pub help : List ℕ
help =
    codes "cash -- the certainly amazing shell\n\n"
    ++ codes "Usage: cash [arguments]\n"
    ++ codes "If no option is given, the REPL will be executed.\n"
    ++ codes "Options:\n"
    ++ codes "\t--help, -h: display this message\n"
    ++ codes "\t--file, -f: <pathname>: path to the file"

-- the values that uninitialised locals hold, for `parse` and `evaluate`
module _ (stale : Node) (garbage : ℕ) where
  -- behind a call of `lex` that returned true
  pub run_tokens : Shell → Outcome Shell
  unfolding print_values
  run_tokens self = do
    nodes ← parse stale (set_tokens self.parser self.lexer.tokens)
    values ← interpret garbage self.interpreter nodes.0
    print_values (record self { parser = nodes.1; interpreter = values.1 }) values.0

  -- the text, the shell after it, and whether `lex` returned true
  unfoldable pub run_text : Shell → List ℕ → Outcome (Shell × Bool)
  unfolding run_tokens
  run_text self text = do
    lexed ← lex (set_data self.lexer text)
    let next = record self { lexer = lexed }
    branch lexed.has_error (λ _. ok (next, false)) (λ _. run_tokens next >>= λ s. ok (s, true))

  -- a round of the loop of `repl`, and the rounds for a list of inputs
  pub repl_round : Shell → List ℕ → Outcome Shell
  unfolding run_text
  repl_round self command =
      branch (is_empty command) (λ _. ok self) (λ _. run_text self command >>= λ r. ok r.0)

  unfoldable pub repl : Shell → List (List ℕ) → Outcome Shell
  unfolding repl_round
  repl self [] = ok self
  repl self (command ∷ inputs) = repl_round self command >>= λ s. repl s inputs

  abbrev pub without_last : List ℕ → List ℕ
  without_last [] = []
  without_last (c ∷ []) = []
  without_last (c ∷ d ∷ s) = c ∷ without_last (d ∷ s)

  -- `main`: the arguments behind the program's name. `read` gives a file's bytes, whose last one is
  -- overwritten by the terminator.
  module _ (read : List ℕ → List ℕ) where
    unfoldable pub run_arguments : Shell → List (List ℕ) → Outcome Shell
    unfolding run_text
    run_arguments self [] = ok self
    run_arguments self (arg ∷ []) =
        branch (str_eq arg (codes "--help") || str_eq arg (codes "-h"))
          (λ _. ok (print_line self help))
          (λ _.
            branch (str_eq arg (codes "--file") || str_eq arg (codes "-f"))
              (λ _. ok (print_line self (codes "Usage: " ++ arg ++ codes " <pathname>")))
              (λ _. ok (
                print_line self
                  (codes "Invalid argument: \"" ++ arg ++ codes "\". Try using --help."))))
    run_arguments self (arg ∷ file ∷ args) =
        branch (str_eq arg (codes "--help") || str_eq arg (codes "-h"))
          (λ _. run_arguments (print_line self help) (file ∷ args))
          (λ _.
            branch (str_eq arg (codes "--file") || str_eq arg (codes "-f"))
              (λ _. run_text self (without_last (read file)) >>= λ r.
                branch r.1 (λ _. run_arguments r.0 args) (λ _. ok r.0))
              (λ _.
                run_arguments
                  (print_line self
                    (codes "Invalid argument: \"" ++ arg ++ codes "\". Try using --help."))
                  (file ∷ args)))
