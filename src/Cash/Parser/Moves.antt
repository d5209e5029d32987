-- ===== src/Cash/Parser/Moves.antt =====
-- What a routine of the parser leaves: the tokens, a cursor that has not gone back, and a node only
-- with a token passed. The short steps of the parser do so.
use radish_os.Prelude.{
  ℕ, zero, suc, ◌≤◌, ◌<◌, ◌≡◌, refl, inl, inr, Bool, true, false, List, [], ◌∷◌, arith, length,
}
use radish_os.Outcome.{ok, panic, index_out_of_range, branch}
use radish_os.Outcome.Missing.{Ends, Ends->>=, Ends-map, Ends-branch}
use radish_os.Cash.Token.{
  Token, TokenType, ◌is◌, plus, minus, star, slash, and_word, or_word, xor_word, not_word,
  equal_equal, not_equal, lesser_than, greater_than, lesser_than_equal, greater_than_equal,
}
use radish_os.Cash.Ast.{Node, nullptr, node_integer, node_bool, node_string, is_null}
use radish_os.Cash.Parser.{
  Parser, Parsed, token_at, type_is, expect, precedent_token, step, advance, fail, syntax_error,
  error_before, error_here, leaf, parse_integer, parse_bool, parse_string, or_else, is_sum_op,
  is_product_op, is_unary_op,
}
use radish_os.Cash.Parser.Sound.{IsSound, IsSoundOrNull, not_null, is_sum, is_product, is_unary}

-- The result `r` of a routine that begins where the cursor is `c`, among `n` tokens.
pub record Moved (n c : ℕ) (r : Node × Parser) : Type 0 where
  pub same : length r.1.tokens ≡ n
  pub forward : c ≤ r.1.token_cursor
  pub passed : is_null r.0 ≡ false → c < r.1.token_cursor
  pub sound : IsSoundOrNull r.0

-- The parser `s` stands at the cursor `c` or behind it.
pub record Stands (n c : ℕ) (s : Parser) : Type 0 where
  pub same : length s.tokens ≡ n
  pub forward : c ≤ s.token_cursor

pub Moved-null : (n c : ℕ) (s : Parser) → Stands n c s → Moved n c (nullptr, s)
Moved-null n c s h = record {
  same = h.same;
  forward = h.forward;
  passed = λ e. ground arith;
  sound = inl refl;
}

pub Moved-node :
    (n c : ℕ) (node : Node) (s : Parser) → Stands n (suc c) s → IsSound node → Moved n c (node, s)
Moved-node n c node s h k = record {
  same = h.same;
  forward = omega (arith, h.forward);
  passed = λ e. omega (arith, h.forward);
  sound = inr k;
}

pub Moved-back : (n c d : ℕ) (r : Node × Parser) → c ≤ d → Moved n d r → Moved n c r
Moved-back n c d r h m = record {
  same = m.same;
  forward = omega (arith, m.forward);
  passed = λ e. omega (arith, m.passed e);
  sound = m.sound;
}

pub expect-below :
    (ts : List Token) (i : ℕ) (type : TokenType) → type_is ts i type ≡ true → i < length ts
unfolding type_is
expect-below [] i type h = ground arith
expect-below (t ∷ ts) zero type h = omega arith
expect-below (t ∷ ts) (suc i) type h = omega (arith, expect-below ts i type h)

-- the token that `advance` gives is of the type that `expect` has seen
pub token_at-type :
    (ts : List Token) (i : ℕ)
    → Ends
        (λ t. (i < length ts) × ((type : TokenType) → type_is ts i type ≡ (t.type is type)))
        (token_at ts i)
unfolding token_at type_is
token_at-type [] i = tt
token_at-type (t ∷ ts) zero = (omega arith, λ type. refl)
token_at-type (t ∷ ts) (suc i) =
    Ends-map (token_at ts i) (token_at-type ts i) (λ u h. (omega (arith, h.0), h.1))

-- what `advance` does where there is a token
pub record Advanced (n : ℕ) (s : Parser) (a : Token × Parser) : Type 0 where
  pub same : length a.1.tokens ≡ n
  pub at : a.1.token_cursor ≡ suc s.token_cursor
  pub below : s.token_cursor < n
  pub kind : (type : TokenType) → expect s type ≡ (a.0.type is type)

pub advance_lem : (n : ℕ) (s : Parser) → length s.tokens ≡ n → Ends (Advanced n s) (advance s)
unfolding step expect advance
advance_lem n s e =
    Ends->>= (Advanced n s) (token_at s.tokens s.token_cursor) (λ t. ok (t, step s))
      (token_at-type s.tokens s.token_cursor)
      (λ t h. record { same = e; at = refl; below = omega (arith, h.0, e); kind = h.1 })

-- An error leaves the cursor and the tokens.
pub syntax_error-Moved :
    (n c : ℕ) (t : Token) (s : Parser) → Stands n c s → Ends (Moved n c) (syntax_error t s)
unfolding syntax_error
syntax_error-Moved n c t s h = Moved-null n c _ (record { same = h.same; forward = h.forward })

pub error_here-Moved : (n c : ℕ) (s : Parser) → Stands n c s → Ends (Moved n c) (error_here s)
unfolding error_here
error_here-Moved n c s h =
    Ends->>= (Moved n c) (token_at s.tokens s.token_cursor) (λ t. syntax_error t s)
      (token_at-type s.tokens s.token_cursor) (λ t k. syntax_error-Moved n c t s h)

precedent_token-ends : (s : Parser) → Ends (λ t. Unit {0}) (precedent_token s)
unfolding precedent_token
precedent_token-ends s = behind s.token_cursor
  where
    behind :
        (i : ℕ)
        → Ends
            (λ t. Unit {0})
            (elim i [ zero ↦ panic index_out_of_range | suc j ↦ token_at s.tokens j ])
    behind zero = tt
    behind (suc j) = Ends-map (token_at s.tokens j) (token_at-type s.tokens j) (λ t k. tt)

pub error_before-Moved : (n c : ℕ) (s : Parser) → Stands n c s → Ends (Moved n c) (error_before s)
unfolding error_before
error_before-Moved n c s h =
    Ends->>= (Moved n c) (precedent_token s) (λ t. syntax_error t s) (precedent_token-ends s)
      (λ t k. syntax_error-Moved n c t s h)

-- A leaf takes one token or leaves all.
leaf-Moved :
    (n : ℕ) (make : List ℕ → Node) (found : Bool) (s : Parser)
    → length s.tokens ≡ n
    → ((v : List ℕ) → IsSound (make v))
    → Ends (Moved n s.token_cursor) (leaf make found s)
unfolding leaf
leaf-Moved n make found s e k =
    Ends-branch (Moved n s.token_cursor) found _ _
      (λ _.
        Ends->>= (Moved n s.token_cursor) (advance s) (λ a. ok (make a.0.value, a.1))
          (advance_lem n s e)
          (λ a h.
            Moved-node n s.token_cursor _ a.1
              (record { same = h.same; forward = omega (arith, h.at) }) (k a.0.value)))
      (λ _. Moved-null n s.token_cursor s (record { same = e; forward = omega arith }))

pub parse_integer-Moved :
    (n : ℕ) (s : Parser) → length s.tokens ≡ n → Ends (Moved n s.token_cursor) (parse_integer s)
unfolding parse_integer
parse_integer-Moved n s e = leaf-Moved n node_integer _ s e (λ v. tt)

pub parse_bool-Moved :
    (n : ℕ) (s : Parser) → length s.tokens ≡ n → Ends (Moved n s.token_cursor) (parse_bool s)
unfolding parse_bool
parse_bool-Moved n s e = leaf-Moved n node_bool _ s e (λ v. tt)

pub parse_string-Moved :
    (n : ℕ) (s : Parser) → length s.tokens ≡ n → Ends (Moved n s.token_cursor) (parse_string s)
unfolding parse_string
parse_string-Moved n s e = leaf-Moved n node_string _ s e (λ v. tt)

-- An alternative begins where the one before it has stopped.
pub or_else-Moved :
    (n c : ℕ) (first : Parsed) (second : Parser → Parsed)
    → Ends (Moved n c) first
    → ((s : Parser) → Stands n c s → Ends (Moved n s.token_cursor) (second s))
    → Ends (Moved n c) (or_else first second)
or_else-Moved n c first second h k = Ends->>= (Moved n c) first _ h (λ r m.
    Ends-branch (Moved n c) (is_null r.0) _ _
      (λ _.
        Ends-map (second r.1) (k r.1 (record { same = m.same; forward = m.forward }))
          (λ q. Moved-back n c r.1.token_cursor q m.forward))
      (λ _. m))

-- A node is used, and null is passed on.
pub used-Moved :
    (n c : ℕ) (r : Node × Parser) (next : Unit {0} → Parsed)
    → Moved n c r
    → (IsSound r.0 → c < r.1.token_cursor → Ends (Moved n c) (next tt))
    → Ends (Moved n c) (branch (is_null r.0) (λ _. fail r.1) next)
used-Moved n c r next m k =
    Ends-branch (Moved n c) (is_null r.0) _ next
      (λ null. Moved-null n c r.1 (record { same = m.same; forward = m.forward }))
      (λ node. k (not_null r.0 m.sound node) (m.passed node))

-- The operator that a loop has looked for is that of the token it takes.
pub is_sum-kind :
    (n : ℕ) (s : Parser) (op : Token × Parser) → Advanced n s op → is_sum_op s ≡ is_sum op.0.type
unfolding is_sum_op expect
is_sum-kind n s op a =
    simp
      (
        a.kind plus,
        a.kind minus,
        a.kind or_word,
        a.kind xor_word,
        a.kind equal_equal,
        a.kind not_equal,
        a.kind lesser_than,
        a.kind lesser_than_equal,
        a.kind greater_than,
        a.kind greater_than_equal,
      )
      refl

pub is_product-kind :
    (n : ℕ) (s : Parser) (op : Token × Parser)
    → Advanced n s op
    → is_product_op s ≡ is_product op.0.type
unfolding is_product_op expect
is_product-kind n s op a = simp (a.kind star, a.kind slash, a.kind and_word) refl

pub is_unary-kind :
    (n : ℕ) (s : Parser) (op : Token × Parser)
    → Advanced n s op
    → is_unary_op s ≡ is_unary op.0.type
unfolding is_unary_op expect
is_unary-kind n s op a = simp (a.kind plus, a.kind minus, a.kind not_word) refl
