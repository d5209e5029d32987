-- ===== src/Cash/Tests.antt =====
-- Lines typed into the shell.
use radish_os.Prelude.{
  ℕ, ◌-◌, ◌^◌, ◌≡◌, ◌≢◌, ◌⊎◌, refl, ap, inl, true, false, some, List, [], ◌∷◌, map, arith,
}
use radish_os.Outcome.{ok, panic, index_out_of_range, bad_typeid, division_trap, ◌>>=◌, Ends}
use radish_os.Prelude.Int.{pos, negsuc}
use radish_os.Outcome.Missing
use radish_os.Cash.Text.{codes, str_eq}
use radish_os.Cash.Word.{int_to_string, atoi, int_min}
use radish_os.Cash.Word.Laws.{atoi-int_to_string}
use radish_os.Cash.Token.{
  Token, TokenType, name, equal, integer, minus, slash, plus, xor_word, lesser_than, greater_than,
  lesser_than_equal, greater_than_equal, equal_equal, not_equal,
}
use radish_os.Cash.Ast.{Node, nullptr, node_integer, node_binary_op, push_node}
use radish_os.Cash.Value.{int_value, null_value, to_string, to_int, to_vector}
use radish_os.Cash.Symbol.{
  Symbol, variable, constant, undefined_symbol, undefined_name, division_by_zero, add_symbol,
  set_symbol_value, clear, get_symbol,
}
use radish_os.Cash.Symbol.Laws.{lookup, update, lookup-set_symbol_value, clear_lem}
use radish_os.Cash.Lexer.{Lexer, lex, new_lexer, start_position}
use radish_os.Cash.Lexer.Ends.{Lexed, lex-Lexed}
use radish_os.Cash.Parser.{new_parser}
use radish_os.Cash.Parser.Sound.{AllSound}
use radish_os.Cash.Command.{no_words, word_node, split_line}
use radish_os.Cash.Command.Split.{AllWords, split_line-words, word_nodes}
use radish_os.Cash.Program.{parse}
use radish_os.Cash.Program.Whole.{parse-AllSound}
use radish_os.Cash.Interpreter.{new_interpreter, interpret, evaluate, binary, compare_ints}
use radish_os.Cash.Interpreter.Numbers.{Answers, number, comparisons_lem, quotient_lem}
use radish_os.Cash.Shell.{Shell, new_shell, repl, run_text}
use radish_os.Cash.Shell.Commands.{run_text-words, seen}
use radish_os.Cash.Shell.Defined.{run_text-defined, repl-constant}

abbrev tokens_of : Lexer → List (TokenType × List ℕ)
tokens_of s = map (λ (t : Token). (t.type, t.value)) s.tokens

abbrev output_of : Shell → List (List ℕ)
output_of s = s.output

-- The character behind a lone `=` is lost.
lost_digit :
    (lex (new_lexer (codes "a=1")) >>= λ s. ok (tokens_of s))
    ≡ ok ((name, codes "a") ∷ (equal, codes "=") ∷ [])
unfolding lex
lost_digit = refl

-- An option makes a command a subtraction.
option_is_minus :
    (lex (new_lexer (codes "ls -l")) >>= λ s. ok (tokens_of s))
    ≡ ok ((name, codes "ls") ∷ (minus, codes "-") ∷ (name, codes "l") ∷ [])
unfolding lex
option_is_minus = refl

-- So does a path from the root.
path_is_division :
    (lex (new_lexer (codes "ls /bin")) >>= λ s. ok (tokens_of s))
    ≡ ok ((name, codes "ls") ∷ (slash, codes "/") ∷ (name, codes "bin") ∷ [])
unfolding lex
path_is_division = refl

-- The bracket of an index is not passed, and what follows is dropped.
bracket_left :
    (repl nullptr 0 new_shell (codes "var a = [ 7 ]" ∷ codes "a[0] + 1" ∷ []) >>= λ s.
    ok (output_of s))
    ≡ ok (codes "7" ∷ [])
unfolding lex parse interpret evaluate repl push_node get_symbol add_symbol set_symbol_value clear
    to_string to_int to_vector atoi
bracket_left = refl

-- An index without its bracket at the end of the line ends the shell.
bracket_missing :
    (repl nullptr 0 new_shell (codes "a[1" ∷ []) >>= λ s. ok (output_of s))
    ≡ panic index_out_of_range
unfolding lex parse interpret evaluate repl push_node get_symbol add_symbol set_symbol_value clear
    to_string to_int to_vector atoi
bracket_missing = refl

-- So does a declaration without a value.
value_missing :
    (repl nullptr 0 new_shell (codes "var a = " ∷ []) >>= λ s. ok (output_of s)) ≡ panic bad_typeid
unfolding lex parse interpret evaluate repl push_node get_symbol add_symbol set_symbol_value clear
    to_string to_int to_vector atoi
value_missing = refl

-- And printing the least `int`.
least_int : int_to_string int_min ≡ panic index_out_of_range
unfolding int_to_string
least_int = refl

session :
    (repl nullptr 0 new_shell (codes "var a = 2 * 3" ∷ codes "a + 1" ∷ []) >>= λ s.
    ok (output_of s))
    ≡ ok (codes "7" ∷ [])
unfolding lex parse interpret evaluate repl push_node get_symbol add_symbol set_symbol_value clear
    to_string to_int to_vector atoi
session = refl

atoi-int_to_string_example : (int_to_string 42 >>= λ s. ok (atoi s)) ≡ ok 42
atoi-int_to_string_example = atoi-int_to_string 42 (omega arith) (λ e. omega (arith, e))

abbrev one_symbol : Symbol
one_symbol = record { name = codes "a"; value = int_value 1; type = variable }

abbrev some_table : List Symbol
some_table = undefined_symbol ∷ one_symbol ∷ []

clear_lem_example :
    (clear (one_symbol ∷ some_table) ≡ ok some_table)
    × (clear (one_symbol ∷ []) ≡ panic index_out_of_range)
clear_lem_example =
    clear_lem (one_symbol ∷ []) (one_symbol ∷ []) (
      λ e. (let names = ap (λ (n : List ℕ). str_eq n undefined_name) e in ground (arith, names)),
      tt,
    )

lookup-set_symbol_value_example :
    lookup (set_symbol_value some_table (codes "a") (int_value 2)).0 (codes "a")
    ≡ update true (int_value 2) (lookup some_table (codes "a"))
lookup-set_symbol_value_example =
    lookup-set_symbol_value some_table (codes "a") (codes "a") (int_value 2)

lex-Lexed_example : Ends (Lexed (codes "a + 1")) (lex (new_lexer (codes "a + 1")))
lex-Lexed_example = lex-Lexed (new_lexer (codes "a + 1"))

abbrev token : TokenType → List ℕ → Token
token type value = record { position = start_position; type = type; value = value }

abbrev sum_tokens : List Token
sum_tokens = token integer (codes "1") ∷ token plus (codes "+") ∷ token integer (codes "2") ∷ []

parse-AllSound_example : Missing.Ends (λ r. AllSound r.0) (parse nullptr (new_parser sum_tokens))
parse-AllSound_example = parse-AllSound nullptr (inl refl) (new_parser sum_tokens)

ls_words : AllWords (codes "ls" ∷ codes "bin" ∷ [])
ls_words = (
  omega arith,
  (refl, refl, (refl, refl, tt)),
  (omega arith, (refl, refl, (refl, refl, (refl, refl, tt))), tt),
)

split_line-words_example :
    split_line (codes "ls bin") false [] no_words
    ≡ record { path = some (word_node (codes "ls")); arguments = word_nodes (codes "bin" ∷ []) }
split_line-words_example = split_line-words (codes "ls") (codes "bin" ∷ []) ls_words

abbrev sum : Node
sum = node_binary_op (node_integer (codes "1")) (node_integer (codes "2")) plus

run_text-words_example :
    (run_text nullptr 0 new_shell (codes "ls bin") >>= λ r. ok (seen nullptr 0 r))
    ≡ ok ((codes "ls" ∷ codes "bin" ∷ []) ∷ [], true)
unfolding get_symbol
run_text-words_example =
    run_text-words nullptr 0 new_shell (codes "ls") (codes "bin" ∷ []) ls_words refl refl
      (refl, (refl, tt))

run_text-defined_example :
    run_text nullptr 0 new_shell (codes "- 1") ≡ run_text nullptr 7 new_shell (codes "- 1")
run_text-defined_example = run_text-defined nullptr (inl refl) 0 7 new_shell (codes "- 1")

abbrev limit : Symbol
limit = record { name = codes "b"; value = int_value 5; type = constant }

abbrev limit_shell : Shell
limit_shell = record new_shell {
  interpreter = record new_interpreter { symbol_table = undefined_symbol ∷ limit ∷ [] };
}

there : lookup limit_shell.interpreter.symbol_table (codes "b") ≡ some limit
unfolding lookup
there = refl

repl-constant_example :
    Ends
      (λ s. lookup s.interpreter.symbol_table (codes "b") ≡ some limit)
      (repl nullptr 0 limit_shell (codes "b = 6" ∷ []))
repl-constant_example =
    repl-constant nullptr (inl refl) 0 (codes "b = 6" ∷ []) limit_shell (codes "b") limit refl there
      refl

-- `xor` is on the bits, and the quotient that does not fit stops the shell.
operators :
    (compare_ints xor_word 1 2 ≡ true)
    × (compare_ints xor_word 3 3 ≡ false)
    × (binary 0 slash (int_value int_min) (int_value (2 ^ 32 - 1)) ≡ panic division_trap)
unfolding to_int
operators = (refl, refl, refl)

comparisons_lem_example :
    Answers 0 lesser_than int_min 1 true
    × Answers 0 greater_than int_min 1 false
    × Answers 0 lesser_than_equal int_min 1 true
    × Answers 0 greater_than_equal int_min 1 false
    × Answers 0 equal_equal int_min 1 false
    × Answers 0 not_equal int_min 1 true
comparisons_lem_example = comparisons_lem 0 int_min 1 (omega arith) (omega arith)

quotient_lem_example :
    (◌≡◌ {A = ℕ} 2 0
      × (binary 0 slash (int_value 7) (int_value 2) ≡ ok (null_value, division_by_zero 7 ∷ [])))
    ⊎ ((number 7 ≡ negsuc (2 ^ 31 - 1))
        × (number 2 ≡ negsuc 0)
        × (binary 0 slash (int_value 7) (int_value 2) ≡ panic division_trap))
    ⊎ ((w : ℕ) × (number w ≡ pos 3)
        × (◌≢◌ {A = ℕ} 2 0)
        × (binary 0 slash (int_value 7) (int_value 2) ≡ ok (int_value w, [])))
quotient_lem_example = quotient_lem 0 7 2 (omega arith) (omega arith)
