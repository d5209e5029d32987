-- ===== src/Cash/Symbol/Laws.antt =====
-- The table of symbols as a finite map from names: what adding, assigning and clearing do to it.
use radish_os.Prelude.{
  ℕ, ◌≡◌, ◌≢◌, refl, sym, ap, ◌∙◌, inl, inr, Bool, true, false, not, ◌&&◌, Option, none, some, List,
  [], ◌∷◌, ◌++◌, arith, if◌then◌else◌, Bool-cases,
}
use radish_os.Outcome.{ok, panic, index_out_of_range}
use radish_os.Cash.Text.{str_eq, str_eq_refl, str_eq→≡}
use radish_os.Cash.Value.{EvalValue}
use radish_os.Cash.Symbol.{
  Symbol, SymbolType, variable, constant, undefined_symbol, undefined_name, is_defined, has_symbol,
  add_symbol, clear, find_symbol, get_symbol, put_value, set_symbol_value,
}

-- The abstract view: what a table says of a name.
unfoldable pub lookup : List Symbol → List ℕ → Option Symbol
lookup [] key = none
lookup (s ∷ table) key = if str_eq s.name key then some s else lookup table key

abbrev pub or_missing : Symbol → Option Symbol → Symbol
or_missing missing none = missing
or_missing missing (some s) = s

-- a table as `SymbolTable()` makes it and every operation but `removeSymbol` keeps it
abbrev pub IsStarted : List Symbol → Type 0
IsStarted [] = ⊥
IsStarted (s ∷ table) = s ≡ undefined_symbol

abbrev pub is_some : Option Symbol → Bool
is_some none = false
is_some (some s) = true

-- a name equal to the first is no name that differs from the first
pub different_names : (a b c : List ℕ) → str_eq a b ≡ true → str_eq a c ≡ false → str_eq c b ≡ false
different_names a b c h k = elim (Bool-cases (str_eq c b)) [
  | inl same ↦
      let e : str_eq a c ≡ true = rw (str_eq→≡ a b h, str_eq→≡ c b same) (str_eq_refl b) in
      ground (arith, e, k)
  | inr differ ↦ differ
]

pub has_symbol-lookup :
    (table : List Symbol) (key : List ℕ) → has_symbol table key ≡ is_some (lookup table key)
unfolding has_symbol lookup
has_symbol-lookup [] key = refl
has_symbol-lookup (s ∷ table) key = elim (Bool-cases (str_eq s.name key)) [
  | inl here ↦ rw here refl
  | inr other ↦ rw other (has_symbol-lookup table key)
]

lookup-append :
    (table : List Symbol) (s : Symbol) (key : List ℕ)
    → has_symbol table s.name ≡ false
    → lookup (table ++ s ∷ []) key ≡ (if str_eq s.name key then some s else lookup table key)
unfolding lookup has_symbol
lookup-append [] s key h = refl
lookup-append (t ∷ table) s key h = elim (Bool-cases (str_eq t.name s.name)) [
  | inl same ↦ ground (arith, h, same)
  | inr differ ↦ elim (Bool-cases (str_eq t.name key)) [
    | inl here ↦ rw (here, different_names t.name key s.name here differ) refl
    | inr other ↦ rw other (lookup-append table s key (ground (arith, h, differ)))
  ]
]

find_symbol-lookup :
    (table : List Symbol) (key : List ℕ) (missing : Symbol)
    → find_symbol table key missing ≡ or_missing missing (lookup table key)
unfolding find_symbol lookup
find_symbol-lookup [] key missing = refl
find_symbol-lookup (s ∷ table) key missing = elim (Bool-cases (str_eq s.name key)) [
  | inl here ↦ rw here refl
  | inr other ↦ rw other (find_symbol-lookup table key missing)
]

pub get_symbol-lookup :
    (table : List Symbol) (key : List ℕ)
    → IsStarted table
    → get_symbol table key ≡ or_missing undefined_symbol (lookup table key)
unfolding get_symbol
get_symbol-lookup [] key h = absurd h
get_symbol-lookup (s ∷ table) key h =
    find_symbol-lookup (s ∷ table) key s
    ∙ ap (λ (m : Symbol). or_missing m (lookup (s ∷ table) key)) h

-- a variable takes the value, a constant keeps its own
abbrev pub assigned : Symbol → EvalValue → SymbolType → Symbol
assigned s v variable = record s { value = v }
assigned s v constant = s

abbrev pub stored : Symbol → EvalValue → Symbol
stored s v = assigned s v s.type

abbrev pub update : Bool → EvalValue → Option Symbol → Option Symbol
update same v none = none
update same v (some s) = if same then some (stored s v) else some s

put_value-assigned :
    (s : Symbol) (v : EvalValue) (type : SymbolType) → (put_value s v type).0 ≡ assigned s v type
put_value-assigned s v variable = refl
put_value-assigned s v constant = refl

stored-name : (s : Symbol) (v : EvalValue) → (stored s v).name ≡ s.name
stored-name s v = by_type s.type
  where
    by_type : (type : SymbolType) → (assigned s v type).name ≡ s.name
    by_type variable = refl
    by_type constant = refl

-- Assigning to a name gives it the new value, unless it is a constant or not in the table, and
-- changes no other name.
pub lookup-set_symbol_value :
    (table : List Symbol) (key other : List ℕ) (v : EvalValue)
    → lookup (set_symbol_value table key v).0 other
      ≡ update (str_eq key other) v (lookup table other)
unfolding lookup set_symbol_value
lookup-set_symbol_value [] key other v = refl
lookup-set_symbol_value (s ∷ table) key other v = elim (Bool-cases (str_eq s.name key)) [
  | inl here ↦
      let e = str_eq→≡ s.name key here in
      rw (here, put_value-assigned s v s.type, stored-name s v, ← e)
        (elim (Bool-cases (str_eq s.name other)) [
          | inl same ↦ rw same refl
          | inr differ ↦ rw differ (sym (untouched (lookup table other)))
        ])
  | inr away ↦ rw away (elim (Bool-cases (str_eq s.name other)) [
    | inl same ↦ rw (same, different_names s.name other key same away) refl
    | inr differ ↦ rw differ (lookup-set_symbol_value table key other v)
  ])
]
  where
    untouched : (o : Option Symbol) → update false v o ≡ o
    untouched none = refl
    untouched (some s) = refl

-- Adding a symbol gives its name the symbol if the table does not have the name, and changes
-- nothing else.
pub lookup-add_symbol :
    (table : List Symbol) (s : Symbol) (key : List ℕ)
    → lookup (add_symbol table s).0 key
      ≡ (if not (has_symbol table s.name) && str_eq s.name key then some s else lookup table key)
unfolding add_symbol
lookup-add_symbol table s key = elim (Bool-cases (has_symbol table s.name)) [
  | inl there ↦ rw there refl
  | inr new ↦ rw new (lookup-append table s key new)
]

pub add-IsStarted :
    (table : List Symbol) (s : Symbol) → IsStarted table → IsStarted (add_symbol table s).0
unfolding add_symbol
add-IsStarted [] s h = absurd h
add-IsStarted (t ∷ table) s h = elim (Bool-cases (has_symbol (t ∷ table) s.name)) [
  | inl there ↦ rw there h
  | inr new ↦ rw new h
]

pub set-IsStarted :
    (table : List Symbol) (key : List ℕ) (v : EvalValue)
    → IsStarted table
    → IsStarted (set_symbol_value table key v).0
unfolding set_symbol_value
set-IsStarted [] key v h = h
set-IsStarted (s ∷ table) key v h = elim (Bool-cases (str_eq s.name key)) [
  | inl here ↦ rw here (put_value-assigned s v s.type ∙ ap (λ (t : Symbol). stored t v) h)
  | inr other ↦ rw other h
]

pub clear-IsStarted : (table : List Symbol) → IsStarted table → clear table ≡ ok table
unfolding clear
clear-IsStarted [] h = absurd h
clear-IsStarted (s ∷ table) h = rw h refl

-- none of the symbols is the undefined symbol
abbrev pub AllDefined : List Symbol → Type 0
AllDefined [] = Unit {0}
AllDefined (s ∷ table) = (s.name ≢ undefined_name) × AllDefined table

defined_name : (s : Symbol) → s.name ≢ undefined_name → is_defined s ≡ true
defined_name s h = elim (Bool-cases (str_eq s.name undefined_name)) [
  | inl same ↦ absurd (h (str_eq→≡ s.name undefined_name same))
  | inr differ ↦ rw differ refl
]

-- `clear` removes the symbols before the first undefined symbol and no other; so it removes nothing
-- from a table that begins with it. Where there is none, it throws.
pub clear_lem :
    (before after : List Symbol)
    → AllDefined before
    → (clear (before ++ undefined_symbol ∷ after) ≡ ok (undefined_symbol ∷ after))
      × (clear before ≡ panic index_out_of_range)
unfolding clear
clear_lem [] after h = (refl, refl)
clear_lem (s ∷ before) after h =
    let (found, missing) = clear_lem before after h.1 in rw (defined_name s h.0) (found, missing)
