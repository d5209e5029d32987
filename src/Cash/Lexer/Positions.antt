-- ===== src/Cash/Lexer/Positions.antt =====
-- What the position of a token says of the text, and that the moves of the lexer keep it right.
use radish_os.Prelude.{
  ℕ, zero, suc, ◌+◌, ◌≤◌, ◌<◌, ◌≡◌, refl, ap, ◌∙◌, ◌⊎◌, inl, inr, Bool, true, false, not, List, [],
  ◌∷◌, ◌++◌, ◌==◌, arith, if◌then◌else◌, length, get_or, Bool-cases,
}
use radish_os.Cash.Token.{Position, Token, TokenType}
use radish_os.Cash.Lexer.{
  Lexer, newline, current, inside, advance, add_token_at, advance_while, next_position, error,
}

-- the line feeds among the first `k` characters
pub rows : List ℕ → ℕ → ℕ
rows [] k = 0
rows (c ∷ s) zero = 0
rows (c ∷ s) (suc k) = (if c == newline then 1 else 0) + rows s k

abbrev pub is_newline : List ℕ → ℕ → Bool
is_newline text i = get_or text i 0 == newline

-- A position names the place of its offset: its row is the number of line feeds before it, and its
-- column the number of characters since the last of them, or since the beginning.
pub record IsAt (text : List ℕ) (p : Position) : Type 0 where
  pub row : p.row ≡ rows text p.offset
  pub column : p.column ≤ p.offset
  pub line : (j : ℕ) → p.offset ≤ j + p.column → j < p.offset → is_newline text j ≡ false
  pub start :
      (p.column ≡ p.offset) ⊎ ((j : ℕ) → j + suc p.column ≡ p.offset → is_newline text j ≡ true)

abbrev pub AllAt : List ℕ → List Token → Type 0
AllAt text [] = Unit {0}
AllAt text (t ∷ ts) = IsAt text t.position × (t.position.offset ≤ length text) × AllAt text ts

AllAt-snoc :
    (text : List ℕ) (ts : List Token) (t : Token)
    → AllAt text ts
    → IsAt text t.position
    → t.position.offset ≤ length text
    → AllAt text (ts ++ t ∷ [])
AllAt-snoc text [] t h k l = (k, l, tt)
AllAt-snoc text (u ∷ ts) t h k l = (h.0, h.1, AllAt-snoc text ts t h.2 k l)

pub rows_zero : (s : List ℕ) → rows s 0 ≡ 0
unfolding rows
rows_zero [] = refl
rows_zero (c ∷ s) = refl

rows-suc :
    (text : List ℕ) (k : ℕ) → rows text (suc k) ≡ rows text k + (if is_newline text k then 1 else 0)
unfolding rows
rows-suc [] k = refl
rows-suc (c ∷ s) zero = omega (arith, rows_zero s)
rows-suc (c ∷ s) (suc k) = omega (arith, rows-suc s k)

same_place :
    (text : List ℕ) (i j : ℕ) (b : Bool) → i ≡ j → is_newline text j ≡ b → is_newline text i ≡ b
same_place text i j b e h = rw e h

next_position-IsAt :
    (text : List ℕ) (p : Position)
    → IsAt text p
    → IsAt text (next_position (get_or text p.offset 0) p.offset p)
next_position-IsAt text p h = elim (Bool-cases (is_newline text p.offset)) [
  | inl feed ↦
      let step : rows text (suc p.offset) ≡ suc (rows text p.offset) =
        rows-suc text p.offset ∙ rw feed (omega arith) in
      rw feed (record {
        row = omega (arith, h.row, step);
        column = omega arith;
        line = λ j a b. absurd (omega arith);
        start = inr (λ j e. same_place text j p.offset true (omega arith) feed);
      })
  | inr other ↦
      let step : rows text (suc p.offset) ≡ rows text p.offset =
        rows-suc text p.offset ∙ rw other (omega arith) in
      rw other (record {
        row = omega (arith, h.row, step);
        column = omega (arith, h.column);
        line = λ j a b. elim (Bool-cases (j == p.offset)) [
          | inl same ↦ same_place text j p.offset false (ground (arith, same)) other
          | inr below ↦ h.line j (omega arith) (ground (arith, below, b))
        ];
        start = elim h.start [
          | inl all ↦ inl (omega (arith, all))
          | inr feed ↦ inr (λ j e. feed j (omega arith))
        ];
      })
]

-- What holds between two steps of the lexer.
pub record Right (text : List ℕ) (s : Lexer) : Type 0 where
  pub same : s.input ≡ text
  pub here : IsAt text s.position
  pub at : s.position.offset ≡ s.cursor
  pub tokens : AllAt text s.tokens
  pub clean : s.has_error ≡ not s.lexing

pub current_lem : (text : List ℕ) (s : Lexer) → s.input ≡ text → current s ≡ get_or text s.cursor 0
current_lem text s e = ap (λ (t : List ℕ). get_or t s.cursor 0) e

next_offset : (c k : ℕ) (p : Position) → (next_position c k p).offset ≡ suc k
next_offset c k p = elim (Bool-cases (c == newline)) [
  | inl feed ↦ rw feed refl
  | inr other ↦ rw other refl
]

pub advance-Right : (text : List ℕ) (s : Lexer) → Right text s → Right text (advance s)
advance-Right text s h = record {
  same = h.same;
  here = rw (current_lem text s h.same, ← h.at) (next_position-IsAt text s.position h.here);
  at = next_offset (current s) s.cursor s.position;
  tokens = h.tokens;
  clean = h.clean;
}

pub add_token_at-Right :
    (text : List ℕ) (s : Lexer) (p : Position) (type : TokenType) (value : List ℕ)
    → Right text s
    → IsAt text p
    → p.offset ≤ length text
    → Right text (add_token_at s p type value)
add_token_at-Right text s p type value h k l = record {
  same = h.same;
  here = h.here;
  at = h.at;
  tokens = AllAt-snoc text s.tokens _ h.tokens k l;
  clean = h.clean;
}

pub error-Right : (text : List ℕ) (s : Lexer) → Right text s → Right text (error s)
error-Right text s h = record {
  same = h.same;
  here = h.here;
  at = h.at;
  tokens = h.tokens;
  clean = refl;
}

-- A loop over characters stops inside or at the end of the text, and goes on while its test holds.
pub record Passed (text : List ℕ) (test : ℕ → Bool) (s next : Lexer) : Type 0 where
  pub right : Right text next
  pub forward : s.cursor ≤ next.cursor
  pub below : next.cursor ≤ length text
  pub lexing : next.lexing ≡ s.lexing
  pub stopped : (next.cursor ≡ length text) ⊎ (test (get_or text next.cursor 0) ≡ false)

pub advance_while-Passed :
    (text : List ℕ) (test : ℕ → Bool) (fuel : ℕ) (s : Lexer)
    → Right text s
    → s.cursor + fuel ≡ length text
    → Passed text test s (advance_while test fuel s).1
unfolding advance_while
advance_while-Passed text test zero s h e = record {
  right = h;
  forward = omega arith;
  below = omega arith;
  lexing = refl;
  stopped = inl (omega arith);
}
advance_while-Passed text test (suc fuel) s h e =
    let within : inside s ≡ true = rw h.same (ground arith) in
    let next =
      advance_while-Passed text test fuel (advance s) (advance-Right text s h) (omega arith) in
    elim (Bool-cases (test (current s))) [
      | inl more ↦
          rw (within, more)
            (record {
              right = next.right;
              forward = omega (arith, next.forward);
              below = next.below;
              lexing = next.lexing;
              stopped = next.stopped;
            })
      | inr stop ↦
          rw (within, stop)
            (record {
              right = h;
              forward = omega arith;
              below = omega arith;
              lexing = refl;
              stopped = inr (rw (← current_lem text s h.same) stop);
            })
    ]

-- and it passes the character it begins with
pub advance_while-passes :
    (text : List ℕ) (test : ℕ → Bool) (fuel : ℕ) (s : Lexer)
    → Right text s
    → s.cursor < length text
    → s.cursor + fuel ≡ length text
    → test (current s) ≡ true
    → s.cursor < (advance_while test fuel s).1.cursor
unfolding advance_while
advance_while-passes text test zero s h lt e more = absurd (omega arith)
advance_while-passes text test (suc fuel) s h lt e more =
    let within : inside s ≡ true = rw h.same (ground arith) in
    let next =
      advance_while-Passed text test fuel (advance s) (advance-Right text s h) (omega arith) in
    rw (within, more) next.forward
