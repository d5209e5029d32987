-- ===== src/Cash/Shell/Commands.antt =====
-- A command line through the whole shell: the words typed are the arguments of the program run.
use radish_os.Prelude.{ℕ, ◌≡◌, refl, ap, Bool, true, false, List, [], ◌∷◌, ◌++◌, arith}
use radish_os.Outcome.{ok, ◌>>=◌, seen_returns}
use radish_os.Cash.Ast.{Node}
use radish_os.Cash.Symbol.Laws.{IsStarted}
use radish_os.Cash.Lexer.{Lexer, start_position, new_lexer, looks_like_command_start, set_data, lex}
use radish_os.Cash.Lexer.Lines.{IsLine, line_token, token_of_line, lex-line}
use radish_os.Cash.Command.Split.{IsPlain, AllWords, join_words}
use radish_os.Cash.Program.Lines.{parse-line}
use radish_os.Cash.Interpreter.Commands.{AllUndefined, interpret-command}
use radish_os.Cash.Token.{Token}
use radish_os.Cash.Shell.{Shell, run_text, run_tokens, print_values}

IsLine-append : (s t : List ℕ) → IsPlain s → IsLine t → IsLine (s ++ t)
IsLine-append [] t h k = k
IsLine-append (c ∷ s) t h k = (ground (arith, h.1), IsLine-append s t h.2 k)

IsLine-plain : (s : List ℕ) → IsPlain s → IsLine s
IsLine-plain [] h = tt
IsLine-plain (c ∷ s) h = (ground (arith, h.1), IsLine-plain s h.2)

join_words-IsLine : (w : List ℕ) (ws : List (List ℕ)) → AllWords (w ∷ ws) → IsLine (join_words w ws)
join_words-IsLine w [] h = IsLine-plain w h.1
join_words-IsLine w (v ∷ ws) h = IsLine-append w _ h.1 (refl, join_words-IsLine v ws h.2)

lex-words :
    (lexer : Lexer) (w : List ℕ) (ws : List (List ℕ))
    → AllWords (w ∷ ws)
    → looks_like_command_start (new_lexer (join_words w ws)) ≡ true
    → (lex (set_data lexer (join_words w ws)) >>= λ r. ok (token_of_line r))
      ≡ ok (line_token (join_words w ws) ∷ [], false)
lex-words lexer [] ws h command = absurd (omega (arith, h.0))
lex-words lexer (c ∷ w) [] h command =
    lex-line lexer c w (join_words-IsLine (c ∷ w) [] h) h.1.1 command
lex-words lexer (c ∷ w) (v ∷ ws) h command =
    lex-line lexer c _ (join_words-IsLine (c ∷ w) (v ∷ ws) h) h.1.1 command

module _ (stale : Node) (garbage : ℕ) where
  -- what is seen of a run: the commands, and whether the lexer has accepted the line
  abbrev pub seen : Shell × Bool → List (List (List ℕ)) × Bool
  seen r = (r.0.interpreter.commands, r.1)

  run_tokens-line :
      (self : Shell) (w : List ℕ) (ws : List (List ℕ))
      → AllWords (w ∷ ws)
      → self.lexer.tokens ≡ line_token (join_words w ws) ∷ []
      → IsStarted self.interpreter.symbol_table
      → AllUndefined self.interpreter.symbol_table (w ∷ ws)
      → (run_tokens stale garbage self >>= λ s. ok s.interpreter.commands)
        ≡ ok (self.interpreter.commands ++ (w ∷ ws) ∷ [])
  unfolding run_tokens print_values
  run_tokens-line self w ws words tokens started undefined =
      let (parsed, returned, tree) =
        seen_returns _ (λ r. r.0) _ (parse-line stale self.parser start_position w ws words) in
      let run = interpret-command garbage self.interpreter w ws words started undefined in
      rw (tokens, returned, tree, run) refl

  -- A line of words, not empty and joined by single spaces, without quotes or blanks in them, that
  -- looks like a command, with a table that begins with the undefined symbol and has none of the
  -- words: the lexer accepts it, and running it adds one command to those run, whose arguments are
  -- the words, the first the path.
  pub run_text-words :
      (self : Shell) (w : List ℕ) (ws : List (List ℕ))
      → AllWords (w ∷ ws)
      → looks_like_command_start (new_lexer (join_words w ws)) ≡ true
      → IsStarted self.interpreter.symbol_table
      → AllUndefined self.interpreter.symbol_table (w ∷ ws)
      → (run_text stale garbage self (join_words w ws) >>= λ r. ok (seen r))
        ≡ ok (self.interpreter.commands ++ (w ∷ ws) ∷ [], true)
  unfolding run_text
  run_text-words self w ws words command started undefined =
      let (lexed, returned, token) =
        seen_returns _ token_of_line _ (lex-words self.lexer w ws words command) in
      let next : Shell = record self { lexer = lexed } in
      let (after, ran, commands) =
        seen_returns _ (λ s. s.interpreter.commands) _
          (run_tokens-line next w ws words (ap (λ (t : List Token × Bool). t.0) token) started
            undefined) in
      let accepted : lexed.has_error ≡ false = ap (λ (t : List Token × Bool). t.1) token in
      rw (returned, accepted, ran, commands) refl
