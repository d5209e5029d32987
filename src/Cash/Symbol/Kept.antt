-- ===== src/Cash/Symbol/Kept.antt =====
-- What adding and assigning keep of a table of symbols.
use radish_os.Prelude.{
  ℕ, ◌≡◌, refl, sym, ap, ◌∙◌, inl, inr, Bool, true, false, Option, none, some, List, arith,
  Bool-cases,
}
use radish_os.Cash.Text.{str_eq, str_eq→≡}
use radish_os.Cash.Value.{EvalValue}
use radish_os.Cash.Symbol.{Symbol, SymbolType, constant, has_symbol, add_symbol, set_symbol_value}
use radish_os.Cash.Symbol.Laws.{
  lookup, IsStarted, is_some, has_symbol-lookup, lookup-add_symbol, lookup-set_symbol_value, update,
  add-IsStarted, set-IsStarted, assigned,
}

-- What an operation keeps of a table: its start, its constants with their values, and its names.
pub record Kept (table after : List Symbol) : Type 0 where
  pub start : IsStarted table → IsStarted after
  pub constants :
      (key : List ℕ) (s : Symbol)
      → lookup table key ≡ some s
      → s.type ≡ constant
      → lookup after key ≡ some s
  pub names : (key : List ℕ) → has_symbol table key ≡ true → has_symbol after key ≡ true

pub Kept-refl : (table : List Symbol) → Kept table table
Kept-refl table = record { start = λ h. h; constants = λ key s h k. h; names = λ key h. h }

pub Kept-trans : (a b c : List Symbol) → Kept a b → Kept b c → Kept a c
Kept-trans a b c h k = record {
  start = λ i. k.start (h.start i);
  constants = λ key s i j. k.constants key s (h.constants key s i j) j;
  names = λ key i. k.names key (h.names key i);
}

some_there :
    (table : List Symbol) (key : List ℕ) (s : Symbol)
    → lookup table key ≡ some s
    → has_symbol table key ≡ true
some_there table key s h = has_symbol-lookup table key ∙ ap is_some h

add_lookup :
    (table : List Symbol) (s : Symbol) (key : List ℕ)
    → has_symbol table key ≡ true
    → lookup (add_symbol table s).0 key ≡ lookup table key
add_lookup table s key h = elim (Bool-cases (has_symbol table s.name)) [
  | inl there ↦ lookup-add_symbol table s key ∙ rw there refl
  | inr new ↦ elim (Bool-cases (str_eq s.name key)) [
    | inl same ↦
        let e : has_symbol table s.name ≡ true = rw (str_eq→≡ s.name key same) h in
        ground (arith, e, new)
    | inr other ↦ lookup-add_symbol table s key ∙ rw (new, other) refl
  ]
]

pub add_symbol-Kept : (table : List Symbol) (s : Symbol) → Kept table (add_symbol table s).0
add_symbol-Kept table s = record {
  start = add-IsStarted table s;
  constants = λ key t h k. add_lookup table s key (some_there table key t h) ∙ h;
  names = λ key h.
      has_symbol-lookup (add_symbol table s).0 key
      ∙ ap is_some (add_lookup table s key h)
      ∙ sym (has_symbol-lookup table key)
      ∙ h;
}

update-constant :
    (same : Bool) (v : EvalValue) (s : Symbol) → s.type ≡ constant → update same v (some s) ≡ some s
update-constant true v s h = ap (λ (type : SymbolType). some (assigned s v type)) h
update-constant false v s h = refl

update-is_some :
    (same : Bool) (v : EvalValue) (o : Option Symbol) → is_some (update same v o) ≡ is_some o
update-is_some same v none = refl
update-is_some true v (some s) = refl
update-is_some false v (some s) = refl

pub set_symbol_value-Kept :
    (table : List Symbol) (key : List ℕ) (v : EvalValue)
    → Kept table (set_symbol_value table key v).0
set_symbol_value-Kept table key v = record {
  start = set-IsStarted table key v;
  constants = λ other t h k.
      lookup-set_symbol_value table key other v
      ∙ ap (update (str_eq key other) v) h
      ∙ update-constant (str_eq key other) v t k;
  names = λ other h.
      has_symbol-lookup (set_symbol_value table key v).0 other
      ∙ ap is_some (lookup-set_symbol_value table key other v)
      ∙ update-is_some (str_eq key other) v (lookup table other)
      ∙ sym (has_symbol-lookup table other)
      ∙ h;
}
