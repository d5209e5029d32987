-- ===== src/Cash/Lexer/Ends.antt =====
-- The lexer ends, stays within the text, and gives each token its place.
use radish_os.Prelude.{
  ◌⊎◌, ap, ℕ, zero, suc, ◌-◌, ◌≤◌, ◌<◌, ◌≡◌, refl, sym, ◌∙◌, inl, inr, true, false, not, ◌&&◌, List,
  arith, length, Bool-cases, ltb→lt,
}
use radish_os.Outcome.{Ends, Ends-branch}
use radish_os.Cash.Text.{is_space}
use radish_os.Cash.Lexer.{Lexer, current, inside, lex_token, skip_blanks, lex_loop, lex}
use radish_os.Cash.Lexer.Rounds.{run-Passed, lex_token-Round}
use radish_os.Cash.Lexer.Positions.{AllAt, rows_zero, Right, current_lem, Passed}

-- What `lex` leaves.
pub record Lexed (text : List ℕ) (s : Lexer) : Type 0 where
  pub same : s.input ≡ text
  pub positions : AllAt text s.tokens
  pub bound : s.cursor ≤ suc (length text)
  pub finished : (s.has_error ≡ true) ⊎ (length text ≤ s.cursor)

inside_below :
    (text : List ℕ) (s : Lexer) → s.input ≡ text → inside s ≡ true → s.cursor < length text
inside_below text s e h = rw (← e) (ltb→lt s.cursor (length s.input) h)

outside_above :
    (text : List ℕ) (s : Lexer) → s.input ≡ text → inside s ≡ false → length text ≤ s.cursor
outside_above text s e h = rw (← e) (ground (arith, h))

solid_char :
    (text : List ℕ) (s next : Lexer)
    → Passed text is_space s next
    → next.cursor < length text
    → is_space (current next) ≡ false
solid_char text s next p below = elim p.stopped [
  | inl end ↦ absurd (omega (arith, end))
  | inr solid ↦ rw (current_lem text next p.right.same) solid
]

stopped_by :
    (text : List ℕ) (s : Lexer)
    → Right text s
    → (inside s && s.lexing) ≡ false
    → (s.has_error ≡ true) ⊎ (length text ≤ s.cursor)
stopped_by text s h stop = elim (Bool-cases (inside s)) [
  | inl within ↦
      let off : s.lexing ≡ false = ground (arith, stop, within) in inl (h.clean ∙ ap not off)
  | inr outside ↦ inr (outside_above text s h.same outside)
]

lex_loop-Lexed :
    (text : List ℕ) (fuel : ℕ) (s : Lexer)
    → Right text s
    → s.cursor ≤ suc (length text)
    → 0 < fuel
    → (s.lexing ≡ true → length text - s.cursor < fuel)
    → Ends (Lexed text) (lex_loop fuel s)
unfolding lex_loop
lex_loop-Lexed text zero s h bound pos enough = absurd (omega arith)
lex_loop-Lexed text (suc fuel) s h bound pos enough =
    Ends-branch (Lexed text) (inside s && s.lexing) _ _
      (λ go.
        let below = inside_below text s h.same (ground (arith, go)) in
        let on : s.lexing ≡ true = ground (arith, go) in
        let p = run-Passed text s is_space h (omega (arith, below)) in
        Ends-branch (Lexed text) (inside (skip_blanks s)) _ _
          (λ more.
            let here = inside_below text (skip_blanks s) p.right.same more in
            let r =
              lex_token-Round text (skip_blanks s)
                (record { right = p.right; below = here; lexing = p.lexing ∙ on })
                (solid_char text s (skip_blanks s) p here) in
            lex_loop-Lexed text fuel (lex_token (skip_blanks s)) r.right r.bound
              (omega (arith, enough on, below))
              (λ e. omega (arith, r.progress e, p.forward, enough on, here)))
          (λ end. record {
            same = p.right.same;
            positions = p.right.tokens;
            bound = omega (arith, p.below);
            finished = inr (outside_above text (skip_blanks s) p.right.same end);
          }))
      (λ stop. record {
        same = h.same;
        positions = h.tokens;
        bound = bound;
        finished = stopped_by text s h stop;
      })

-- `lex` ends on every text, with its cursor at most one behind the terminator. Each token has its
-- position: it is within the text, and its row and column are those of its offset. The whole text
-- has been read, or there was an error.
pub lex-Lexed : (s : Lexer) → Ends (Lexed s.input) (lex s)
unfolding lex
lex-Lexed s =
    lex_loop-Lexed s.input (suc (length s.input)) _
      (record {
        same = refl;
        here = record {
          row = sym (rows_zero s.input);
          column = omega arith;
          line = λ j a b. absurd (omega arith);
          start = inl refl;
        };
        at = refl;
        tokens = tt;
        clean = refl;
      })
      (omega arith) (omega arith) (λ e. omega arith)
