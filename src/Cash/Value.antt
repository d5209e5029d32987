-- ===== src/Cash/Value.antt =====
-- userspace/cash/cash/value.cpp: what an expression evaluates to.
pub mod Laws
use radish_os.Prelude.{ℕ, zero, suc, Bool, true, false, List, [], ◌∷◌, ◌++◌, if◌then◌else◌}
use radish_os.Outcome.{Outcome, ok, ◌>>=◌}
use radish_os.Cash.Text.{codes}
use radish_os.Cash.Word.{atoi, int_to_string}

-- the variant's cases; `Values` is the vector of them
mutual
  pub data EvalValue : Type 0 where
    null_value : EvalValue
    string_value : List ℕ → EvalValue
    int_value : ℕ → EvalValue
    bool_value : Bool → EvalValue
    vector_value : Values → EvalValue

  pub data Values : Type 0 where
    no_values : Values
    next_value : EvalValue → Values → Values

-- `value != null_value.value`, turned over
abbrev pub is_null_value : EvalValue → Bool
is_null_value null_value = true
is_null_value v = false

abbrev pub bool_to_string : Bool → List ℕ
bool_to_string true = codes "true"
bool_to_string false = codes "false"

-- a comma follows every element but the last
abbrev pub separator : Values → List ℕ
separator no_values = []
separator (next_value v vs) = codes ", "

unfoldable mutual
  unfolding int_to_string

  pub to_string : EvalValue → Outcome (List ℕ)
  to_string null_value = ok (codes "null")
  to_string (string_value s) = ok s
  to_string (int_value i) = int_to_string i
  to_string (bool_value b) = ok (bool_to_string b)
  to_string (vector_value vs) = elements_to_string vs >>= λ str. ok (b'[' ∷ (str ++ b']' ∷ []))

  pub elements_to_string : Values → Outcome (List ℕ)
  elements_to_string no_values = ok []
  elements_to_string (next_value v vs) =
      to_string v >>= λ first. elements_to_string vs >>= λ rest. ok (first ++ separator vs ++ rest)

unfoldable pub to_int : EvalValue → ℕ
unfolding atoi
to_int null_value = 0
to_int (string_value s) = atoi s
to_int (int_value i) = i
to_int (bool_value b) = if b then 1 else 0
to_int (vector_value vs) = 0

unfoldable pub to_vector : EvalValue → Values
to_vector null_value = no_values
to_vector (string_value s) = no_values
to_vector (int_value i) = no_values
to_vector (bool_value b) = no_values
to_vector (vector_value vs) = vs

abbrev pub count : Values → ℕ
count no_values = 0
count (next_value v vs) = suc (count vs)

-- `vec[i]` and `vec[i] = v`, within the bounds
abbrev pub value_at : Values → ℕ → EvalValue
value_at no_values i = null_value
value_at (next_value v vs) zero = v
value_at (next_value v vs) (suc i) = value_at vs i

abbrev pub set_value : Values → ℕ → EvalValue → Values
set_value no_values i w = no_values
set_value (next_value v vs) zero w = next_value w vs
set_value (next_value v vs) (suc i) w = next_value v (set_value vs i w)

abbrev pub push_value : Values → EvalValue → Values
push_value no_values w = next_value w no_values
push_value (next_value v vs) w = next_value v (push_value vs w)
