-- ===== src/Cash/Lexer/Lines.antt =====
-- A command is one token: the whole line, as it was typed.
use radish_os.Prelude.{
  ℕ, zero, suc, ◌+◌, ◌≤◌, ◌<◌, ◌≡◌, refl, sym, ap, ◌∙◌, inl, inr, Bool, true, false, not, ◌&&◌,
  List, [], ◌∷◌, ◌==◌, arith, length, get_or, Bool-cases,
}
use radish_os.Outcome.{Outcome, ok, ◌>>=◌, branch, branch-true}
use radish_os.Cash.Text.{is_space}
use radish_os.Cash.CommandStart.{rest_of}
use radish_os.Cash.Token.{Token, raw_line}
use radish_os.Cash.Lexer.{
  Lexer, newline, current, inside, advance, advance_while, looks_like_command_start, lex, lex_loop,
  lex_token, set_data, start_position, new_lexer, left, skip_blanks, lex_run, starts_command, reset,
}

rest_of-beyond : (text : List ℕ) (k : ℕ) → length text ≤ k → rest_of text k ≡ []
rest_of-beyond [] k h = refl
rest_of-beyond (c ∷ s) zero h = absurd (omega arith)
rest_of-beyond (c ∷ s) (suc k) h = rest_of-beyond s k (omega arith)

rest_of-inside :
    (text : List ℕ) (k : ℕ)
    → k < length text
    → rest_of text k ≡ get_or text k 0 ∷ rest_of text (suc k)
rest_of-inside [] k h = absurd (omega arith)
rest_of-inside (c ∷ []) zero h = refl
rest_of-inside (c ∷ d ∷ s) zero h = refl
rest_of-inside (c ∷ s) (suc k) h = rest_of-inside s k (omega arith)

-- A loop whose test never fails takes the rest of the text.
record TookAll (s : Lexer) (r : List ℕ × Lexer) : Type 0 where
  taken : r.0 ≡ rest_of s.input s.cursor
  input : r.1.input ≡ s.input
  cursor : r.1.cursor ≡ length s.input
  tokens : r.1.tokens ≡ s.tokens
  has_error : r.1.has_error ≡ s.has_error

advance_while-TookAll :
    (test : ℕ → Bool) (fuel : ℕ) (s : Lexer)
    → s.cursor + fuel ≡ length s.input
    → ((j : ℕ) → j < length s.input → test (get_or s.input j 0) ≡ true)
    → TookAll s (advance_while test fuel s)
unfolding advance_while
advance_while-TookAll test zero s e h = record {
  taken = sym (rest_of-beyond s.input s.cursor (omega arith));
  input = refl;
  cursor = omega arith;
  tokens = refl;
  has_error = refl;
}
advance_while-TookAll test (suc fuel) s e h =
    let more = advance_while-TookAll test fuel (advance s) (omega arith) h in
    let within : inside s ≡ true = ground arith in
    let holds : test (current s) ≡ true = h s.cursor (omega arith) in
    rw (within, holds)
      (record {
        taken =
            ap (λ (t : List ℕ). current s ∷ t) more.taken
            ∙ sym (rest_of-inside s.input s.cursor (omega arith));
        input = more.input;
        cursor = more.cursor;
        tokens = more.tokens;
        has_error = more.has_error;
      })

-- a line without a line feed
abbrev pub IsLine : List ℕ → Type 0
IsLine [] = Unit {0}
IsLine (c ∷ s) = ((c == newline) ≡ false) × IsLine s

IsLine-get_or :
    (s : List ℕ) (j : ℕ) → IsLine s → j < length s → not (get_or s j 0 == newline) ≡ true
IsLine-get_or [] j h k = absurd (omega arith)
IsLine-get_or (c ∷ s) zero h k = rw h.0 refl
IsLine-get_or (c ∷ s) (suc j) h k = IsLine-get_or s j h.1 (omega arith)

abbrev pub line_token : List ℕ → Token
line_token text = record { position = start_position; type = raw_line; value = text }

abbrev pub token_of_line : Lexer → List Token × Bool
token_of_line r = (r.tokens, r.has_error)

advance_while-stops :
    (test : ℕ → Bool) (fuel : ℕ) (s : Lexer)
    → test (current s) ≡ false
    → (advance_while test fuel s).1 ≡ s
unfolding advance_while
advance_while-stops test zero s solid = refl
advance_while-stops test (suc fuel) s solid = elim (Bool-cases (inside s)) [
  | inl within ↦ rw (within, solid) refl
  | inr outside ↦ rw outside refl
]

skip_blanks-solid : (s : Lexer) → is_space (current s) ≡ false → skip_blanks s ≡ s
unfolding skip_blanks
skip_blanks-solid s solid = advance_while-stops is_space (left s) s solid

round_at : ℕ → Lexer → Outcome Lexer
round_at fuel here = branch (inside here) (λ _. lex_loop fuel (lex_token here)) (λ _. ok here)

lex_loop-token :
    (fuel : ℕ) (s : Lexer)
    → skip_blanks s ≡ s
    → inside s ≡ true
    → s.lexing ≡ true
    → lex_loop (suc fuel) s ≡ lex_loop fuel (lex_token s)
unfolding lex_loop round_at
lex_loop-token fuel s skip within on =
    branch-true (inside s && s.lexing) _ _ (ground (arith, within, on))
    ∙ ap (round_at fuel) skip
    ∙ branch-true (inside s) _ _ within

lex_loop-end : (fuel : ℕ) (s : Lexer) → inside s ≡ false → lex_loop (suc fuel) s ≡ ok s
unfolding lex_loop
lex_loop-end fuel s outside = rw outside refl

raw_run : Lexer → Lexer
raw_run s = lex_run s (λ c. not (c == newline)) (λ text. raw_line)

lex_token-command : (s : Lexer) → starts_command s ≡ true → lex_token s ≡ raw_run s
unfolding lex_token raw_run
lex_token-command s h = rw h refl

abbrev started : Lexer → List ℕ → Lexer
started s text = record (reset (set_data s text)) { lexing = true }

raw_run-started :
    (s : Lexer) (c : ℕ) (text : List ℕ)
    → IsLine (c ∷ text)
    → (inside (raw_run (started s (c ∷ text))) ≡ false)
      × (token_of_line (raw_run (started s (c ∷ text))) ≡ (line_token (c ∷ text) ∷ [], false))
unfolding raw_run lex_run
raw_run-started s c text line =
    let all =
      advance_while-TookAll (λ d. not (d == newline)) (left (started s (c ∷ text)))
        (started s (c ∷ text)) (omega arith) (λ j h. IsLine-get_or (c ∷ text) j line h) in
    (rw (all.cursor, all.input) (ground arith), rw (all.tokens, all.taken, all.has_error) refl)

-- A line without line feeds that does not begin with a blank and looks like a command becomes one
-- token, at the start, which holds the line, without an error.
pub lex-line :
    (s : Lexer) (c : ℕ) (text : List ℕ)
    → IsLine (c ∷ text)
    → is_space c ≡ false
    → looks_like_command_start (new_lexer (c ∷ text)) ≡ true
    → (lex (set_data s (c ∷ text)) >>= λ r. ok (token_of_line r))
      ≡ ok (line_token (c ∷ text) ∷ [], false)
unfolding lex
lex-line s c text line solid command =
    let start = started s (c ∷ text) in
    let within : inside start ≡ true = ground arith in
    let skip = skip_blanks-solid start solid in
    let begins : starts_command start ≡ true = command in
    let run = raw_run-started s c text line in
    let result : lex (set_data s (c ∷ text)) ≡ ok (raw_run start) =
      lex_loop-token (suc (length text)) start skip within refl
      ∙ ap (lex_loop (suc (length text))) (lex_token-command start begins)
      ∙ lex_loop-end (length text) (raw_run start) run.0 in
    ap (λ m. m >>= λ r. ok (token_of_line r)) result ∙ ap ok run.1
