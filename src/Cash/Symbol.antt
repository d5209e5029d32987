-- ===== src/Cash/Symbol.antt =====
-- userspace/cash/cash/symbol.cpp: the table of the shell's variables and constants.
pub mod Laws
pub mod Kept
use radish_os.Prelude.{ℕ, Bool, true, false, not, List, [], ◌∷◌, ◌++◌, if◌then◌else◌}
use radish_os.Outcome.{Outcome, ok, panic, index_out_of_range}
use radish_os.Cash.Text.{codes, str_eq}
use radish_os.Cash.Value.{EvalValue, null_value}

pub data SymbolType : Type 0 where
  variable constant : SymbolType

pub record Symbol : Type 0 where
  pub name : List ℕ
  pub value : EvalValue
  pub type : SymbolType

-- The messages of userspace/cash/cash/error.cpp and of the division, as values.
pub data Message : Type 0 where
  already_declared is_constant not_declared : List ℕ → Message
  index_out_of_range_error : ℕ → ℕ → Message
  division_by_zero : ℕ → Message

abbrev pub undefined_name : List ℕ
undefined_name = codes "__undefined__"

abbrev pub undefined_symbol : Symbol
undefined_symbol = record { name = undefined_name; value = null_value; type = constant }

abbrev pub is_defined : Symbol → Bool
is_defined s = not (str_eq s.name undefined_name)

-- the table a `SymbolTable` starts with
abbrev pub start_table : List Symbol
start_table = undefined_symbol ∷ []

pub has_symbol : List Symbol → List ℕ → Bool
has_symbol [] key = false
has_symbol (s ∷ table) key = if str_eq s.name key then true else has_symbol table key

-- the table, whether the symbol is new, and what is printed
unfoldable pub add_symbol : List Symbol → Symbol → List Symbol × Bool × List Message
unfolding has_symbol
add_symbol table s =
    if has_symbol table s.name
    then (table, false, already_declared s.name ∷ [])
    else (table ++ s ∷ [], true, [])

pub remove_symbol : List Symbol → Symbol → List Symbol × Bool × List Message
remove_symbol [] s = ([], false, not_declared s.name ∷ [])
remove_symbol (t ∷ table) s =
    let rest = remove_symbol table s in
    if str_eq t.name s.name then (table, true, []) else (t ∷ rest.0, rest.1, rest.2)

-- The loop looks at the first symbol only. On an empty table `symbols[i]` throws.
unfoldable pub clear : List Symbol → Outcome (List Symbol)
clear [] = panic index_out_of_range
clear (s ∷ table) = let rest = clear table in if is_defined s then rest else ok (s ∷ table)

-- the symbol, or `symbols[0]`
abbrev pub first_symbol : List Symbol → Symbol
first_symbol [] = undefined_symbol
first_symbol (s ∷ table) = s

pub find_symbol : List Symbol → List ℕ → Symbol → Symbol
find_symbol [] key missing = missing
find_symbol (s ∷ table) key missing = if str_eq s.name key then s else find_symbol table key missing

unfoldable pub get_symbol : List Symbol → List ℕ → Symbol
unfolding find_symbol
get_symbol table key = find_symbol table key (first_symbol table)

abbrev pub put_value : Symbol → EvalValue → SymbolType → Symbol × List Message
put_value s v constant = (s, is_constant s.name ∷ [])
put_value s v variable = (record s { value = v }, [])

unfoldable pub set_symbol_value : List Symbol → List ℕ → EvalValue → List Symbol × List Message
set_symbol_value [] key v = ([], not_declared key ∷ [])
set_symbol_value (s ∷ table) key v =
    let rest = set_symbol_value table key v in
    let put = put_value s v s.type in
    if str_eq s.name key then (put.0 ∷ table, put.1) else (s ∷ rest.0, rest.1)
