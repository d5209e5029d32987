-- ===== src/Cash/Shell/Defined.antt =====
-- The shell as a whole uses no uninitialised `int`, keeps its constants, and ends.
use radish_os.Prelude.{ℕ, ◌≡◌, refl, sym, ap, subst, List, [], ◌∷◌, some, true, false}
use radish_os.Outcome.{
  Outcome, ok, ◌>>=◌, >>=_congr, branch, Ends, Ends->>=, Ends-map, Ends-branch, Ends->>=_congr,
}
use radish_os.Outcome.Missing.{Ends-Ends}
use radish_os.Cash.Ast.{Node, Nodes}
use radish_os.Cash.Value.{Values, no_values, next_value, to_string, is_null_value}
use radish_os.Cash.Value.Laws.{to_string-ends}
use radish_os.Cash.Text.{is_empty}
use radish_os.Cash.Symbol.{Symbol, constant}
use radish_os.Cash.Symbol.Laws.{lookup, IsStarted}
use radish_os.Cash.Symbol.Kept.{Kept, Kept-refl, Kept-trans}
use radish_os.Cash.Lexer.{lex, set_data}
use radish_os.Cash.Lexer.Ends.{lex-Lexed}
use radish_os.Cash.Parser.{Parser, set_tokens}
use radish_os.Cash.Parser.Sound.{IsSoundOrNull, AllSound}
use radish_os.Cash.Program.{parse}
use radish_os.Cash.Program.Whole.{parse-AllSound}
use radish_os.Cash.Interpreter.{Interpreter, interpret}
use radish_os.Cash.Interpreter.Keeping.{interpret-Kept}
use radish_os.Cash.Interpreter.Defined.{interpret-defined}
use radish_os.Cash.Shell.{Shell, run_text, run_tokens, print_values, print_line, repl, repl_round}

-- what a run leaves of the table of symbols
abbrev pub KeptBy : Shell → Shell → Type 0
KeptBy self after = Kept self.interpreter.symbol_table after.interpreter.symbol_table

abbrev pub Started : Shell → Type 0
Started self = IsStarted self.interpreter.symbol_table

print_values-KeptBy :
    (self : Shell) (vs : Values)
    → Ends (λ s. s.interpreter.symbol_table ≡ self.interpreter.symbol_table) (print_values self vs)
unfolding print_values
print_values-KeptBy self no_values = refl
print_values-KeptBy self (next_value v vs) =
    Ends-branch _ (is_null_value v) _ _ (λ null. print_values-KeptBy self vs)
      λ value.
        Ends->>= _ (to_string v) _ (to_string-ends v)
          λ s h. print_values-KeptBy (print_line self s) vs

module _ (stale : Node) (unset : IsSoundOrNull stale) where
  run_tokens-defined : (g h : ℕ) (self : Shell) → run_tokens stale g self ≡ run_tokens stale h self
  unfolding run_tokens
  run_tokens-defined g h self =
      let tokens = set_tokens self.parser self.lexer.tokens in
      Ends->>=_congr (λ (r : Nodes × Parser). AllSound r.0) (parse stale tokens) _ _
        (Ends-Ends _ (parse stale tokens) (parse-AllSound stale unset tokens))
        λ nodes sound.
          ap
            (λ (m : Outcome (Values × Interpreter)). m >>= λ values.
              print_values (record self { parser = nodes.1; interpreter = values.1 }) values.0)
            (interpret-defined g h self.interpreter nodes.0 sound)

  -- Whatever text is run, what the shell does is the same whatever value an uninitialised `int`
  -- has, if the uninitialised pointer is null or sound.
  pub run_text-defined :
      (g h : ℕ) (self : Shell) (text : List ℕ)
      → run_text stale g self text ≡ run_text stale h self text
  unfolding run_text
  run_text-defined g h self text =
      let lexing = lex (set_data self.lexer text) in
      >>=_congr lexing lexing _ _ refl λ lexed.
        ap
          (λ (m : Outcome Shell).
            branch lexed.has_error (λ _. ok (record self { lexer = lexed }, false))
              (λ _. m >>= λ s. ok (s, true)))
          (run_tokens-defined g h (record self { lexer = lexed }))

  module _ (garbage : ℕ) where
    run_tokens-KeptBy :
        (self : Shell) → Started self → Ends (KeptBy self) (run_tokens stale garbage self)
    unfolding run_tokens
    run_tokens-KeptBy self start =
        Ends->>= _ (parse stale (set_tokens self.parser self.lexer.tokens)) _
          (Ends-Ends _ (parse stale (set_tokens self.parser self.lexer.tokens))
            (parse-AllSound stale unset (set_tokens self.parser self.lexer.tokens)))
          λ nodes sound.
            Ends->>= _ (interpret garbage self.interpreter nodes.0) _
              (interpret-Kept garbage self.interpreter nodes.0 start)
              λ values kept.
                let next : Shell = record self { parser = nodes.1; interpreter = values.1 } in
                Ends-map (print_values next values.0) (print_values-KeptBy next values.0) (λ s e.
                  subst (λ (table : List Symbol). Kept self.interpreter.symbol_table table) (sym e)
                    kept)

    run_text-KeptBy :
        (self : Shell) (text : List ℕ)
        → Started self
        → Ends (λ r. KeptBy self r.0) (run_text stale garbage self text)
    unfolding run_text
    run_text-KeptBy self text start =
        Ends->>= _ (lex (set_data self.lexer text)) _ (lex-Lexed (set_data self.lexer text))
          λ lexed h.
            Ends-branch _ lexed.has_error _ _ (λ error. Kept-refl self.interpreter.symbol_table)
              λ right.
                Ends->>= _ (run_tokens stale garbage (record self { lexer = lexed })) _
                  (run_tokens-KeptBy (record self { lexer = lexed }) start) λ s kept. kept

    repl_round-KeptBy :
        (self : Shell) (command : List ℕ)
        → Started self
        → Ends (KeptBy self) (repl_round stale garbage self command)
    unfolding repl_round
    repl_round-KeptBy self command start =
        Ends-branch _ (is_empty command) _ _ (λ none. Kept-refl self.interpreter.symbol_table)
          λ some.
            Ends->>= _ (run_text stale garbage self command) _ (run_text-KeptBy self command start)
              λ r kept. kept

    repl-KeptBy :
        (inputs : List (List ℕ)) (self : Shell)
        → Started self
        → Ends (KeptBy self) (repl stale garbage self inputs)
    unfolding repl
    repl-KeptBy [] self start = Kept-refl self.interpreter.symbol_table
    repl-KeptBy (command ∷ inputs) self start =
        Ends->>= (KeptBy self) (repl_round stale garbage self command) _
          (repl_round-KeptBy self command start)
          λ s kept.
            Ends-map (repl stale garbage s inputs) (repl-KeptBy inputs s (kept.start start))
              (λ after more.
                Kept-trans self.interpreter.symbol_table s.interpreter.symbol_table
                  after.interpreter.symbol_table kept more)

    -- A session of any lines ends, by returning, by an exception or by the trap of
    -- a quotient that overflows. A constant that is in the
    -- table before it is there after it, with the same value, if the table begins with the
    -- undefined symbol and the uninitialised pointer is null or sound.
    pub repl-constant :
        (inputs : List (List ℕ)) (self : Shell) (key : List ℕ) (c : Symbol)
        → Started self
        → lookup self.interpreter.symbol_table key ≡ some c
        → c.type ≡ constant
        → Ends
            (λ s. lookup s.interpreter.symbol_table key ≡ some c)
            (repl stale garbage self inputs)
    repl-constant inputs self key c start there fixed =
        Ends-map (repl stale garbage self inputs) (repl-KeptBy inputs self start)
          (λ s kept. kept.constants key c there fixed)
