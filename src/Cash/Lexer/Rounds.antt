-- ===== src/Cash/Lexer/Rounds.antt =====
-- One round of the lexer: it goes forward or stops with an error, and keeps the positions right.
use radish_os.Prelude.{
  ℕ, suc, ◌+◌, ◌≤◌, ◌<◌, ◌≡◌, refl, inl, inr, Bool, true, false, not, List, ◌==◌, arith, length,
  Bool-cases,
}
use radish_os.Outcome.{branch}
use radish_os.Cash.Text.{is_space, is_digit, codes}
use radish_os.Cash.CommandStart.{is_name_start, is_name_char}
use radish_os.Cash.Token.{TokenType, raw_line, integer, string, not_equal}
use radish_os.Cash.Lexer.{
  Lexer, newline, current, advance, add_token, advance_while, lex_double, lex_bang, lex_quote,
  lex_switch, lex_run, lex_token, starts_command, found_digit, keyword_type, switch_of, Switch,
  single, double, bang, quote, other, left,
}
use radish_os.Cash.Lexer.Positions.{
  Right, advance-Right, add_token_at-Right, error-Right, Passed, advance_while-Passed,
  advance_while-passes,
}

-- A round goes forward or stops with an error.
pub record Round (text : List ℕ) (s next : Lexer) : Type 0 where
  pub right : Right text next
  pub bound : next.cursor ≤ suc (length text)
  pub progress : next.lexing ≡ true → s.cursor < next.cursor
  pub stopped : next.lexing ≡ false → next.cursor ≤ length text

-- A lexer inside the text, ready for a token.
pub record Ready (text : List ℕ) (s : Lexer) : Type 0 where
  pub right : Right text s
  pub below : s.cursor < length text
  pub lexing : s.lexing ≡ true

left_lem :
    (text : List ℕ) (s : Lexer)
    → s.input ≡ text
    → s.cursor ≤ length text
    → s.cursor + left s ≡ length text
left_lem text s e h = rw e (omega arith)

pub run-Passed :
    (text : List ℕ) (s : Lexer) (test : ℕ → Bool)
    → Right text s
    → s.cursor ≤ length text
    → Passed text test s (advance_while test (left s) s).1
run-Passed text s test h below =
    advance_while-Passed text test (left s) s h (left_lem text s h.same below)

lex_run-Round :
    (text : List ℕ) (s : Lexer) (test : ℕ → Bool) (type : List ℕ → TokenType)
    → Ready text s
    → test (current s) ≡ true
    → Round text s (lex_run s test type)
unfolding lex_run
lex_run-Round text s test type h first =
    let p = run-Passed text s test h.right (omega (arith, h.below)) in
    record {
      right =
          add_token_at-Right text _ s.position _ _ p.right h.right.here
            (omega (arith, h.right.at, h.below));
      bound = omega (arith, p.below);
      progress = λ e.
          advance_while-passes text test (left s) s h.right h.below
            (left_lem text s h.right.same (omega (arith, h.below))) first;
      stopped = λ e. p.below;
    }

-- a token at the present place, and a character passed
token-Right :
    (text : List ℕ) (s : Lexer) (type : TokenType) (value : List ℕ)
    → Right text s
    → s.cursor ≤ length text
    → Right text (advance (add_token s type value))
token-Right text s type value h below =
    advance-Right text (add_token s type value)
      (add_token_at-Right text s s.position type value h h.here (omega (arith, h.at)))

lex_bang-Round : (text : List ℕ) (s : Lexer) → Ready text s → Round text s (lex_bang s)
lex_bang-Round text s h =
    let next = advance-Right text s h.right in
    elim (Bool-cases (current (advance s) == b'=')) [
      | inl equal ↦ rw equal (record {
        right = token-Right text (advance s) not_equal (codes "!=") next (omega (arith, h.below));
        bound = omega (arith, h.below);
        progress = λ e. omega arith;
        stopped = λ e. ground (arith, h.lexing, e);
      })
      | inr differ ↦ rw differ (record {
        right = error-Right text (advance s) next;
        bound = omega (arith, h.below);
        progress = λ e. omega arith;
        stopped = λ e. omega (arith, h.below);
      })
    ]

lex_double-Round :
    (text : List ℕ) (s : Lexer) (c : ℕ) (long short : TokenType)
    → Ready text s
    → Round text s (lex_double s c long short)
lex_double-Round text s c long short h =
    let next = advance-Right text s h.right in
    elim (Bool-cases (current (advance s) == b'=')) [
      | inl equal ↦ rw equal (record {
        right = token-Right text (advance s) long _ next (omega (arith, h.below));
        bound = omega (arith, h.below);
        progress = λ e. omega arith;
        stopped = λ e. ground (arith, h.lexing, e);
      })
      | inr differ ↦ rw differ (record {
        right = token-Right text (advance s) short _ next (omega (arith, h.below));
        bound = omega (arith, h.below);
        progress = λ e. omega arith;
        stopped = λ e. ground (arith, h.lexing, e);
      })
    ]

lex_quote-Round : (text : List ℕ) (s : Lexer) → Ready text s → Round text s (lex_quote s)
unfolding lex_quote
lex_quote-Round text s h =
    let next = advance-Right text s h.right in
    let p = run-Passed text (advance s) (λ c. not (c == b'"')) next (omega (arith, h.below)) in
    record {
      right = token-Right text _ string _ p.right p.below;
      bound = omega (arith, p.below);
      progress = λ e. omega (arith, p.forward);
      stopped = λ e. ground (arith, h.lexing, e, p.lexing);
    }

lex_switch-Round :
    (text : List ℕ) (s : Lexer) (c : Switch) → Ready text s → Round text s (lex_switch s c)
unfolding lex_switch
lex_switch-Round text s (single type value) h = record {
  right = token-Right text s type value h.right (omega (arith, h.below));
  bound = omega (arith, h.below);
  progress = λ e. omega arith;
  stopped = λ e. ground (arith, h.lexing, e);
}
lex_switch-Round text s (double long short) h = lex_double-Round text s (current s) long short h
lex_switch-Round text s bang h = lex_bang-Round text s h
lex_switch-Round text s quote h = lex_quote-Round text s h
lex_switch-Round text s other h = record {
  right = error-Right text s h.right;
  bound = omega (arith, h.below);
  progress = λ e. ground (arith, e);
  stopped = λ e. omega (arith, h.below);
}

blank_newline : (c : ℕ) → is_space c ≡ false → not (c == newline) ≡ true
blank_newline c h = ground (arith, h)

name_start : (c : ℕ) → is_name_start c ≡ true → is_name_char c ≡ true
name_start c h = ground (arith, h)

branch_holds :
    {A : Type 0} (P : A → Type 0) (b : Bool) (x y : Unit {0} → A)
    → (b ≡ true → P (x tt))
    → (b ≡ false → P (y tt))
    → P (branch b x y)
branch_holds P true x y h k = h refl
branch_holds P false x y h k = k refl

pub lex_token-Round :
    (text : List ℕ) (s : Lexer)
    → Ready text s
    → is_space (current s) ≡ false
    → Round text s (lex_token s)
unfolding lex_token
lex_token-Round text s h solid =
    branch_holds (Round text s) (starts_command s) _ _
      (λ command.
        lex_run-Round text s (λ d. not (d == newline)) (λ value. raw_line) h
          (blank_newline (current s) solid))
      λ a.
        branch_holds (Round text s) (found_digit s) _ _
          (λ digit. lex_run-Round text s is_digit (λ value. integer) h digit)
          λ b.
            branch_holds (Round text s) (is_name_start (current s)) _ _
              (λ start.
                lex_run-Round text s is_name_char keyword_type h (name_start (current s) start))
              λ c. lex_switch-Round text s (switch_of (current s)) h
