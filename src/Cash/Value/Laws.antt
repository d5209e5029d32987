-- ===== src/Cash/Value/Laws.antt =====
-- Printing a value ends.
use radish_os.Prelude.{ℕ, ◌≡◌, refl, List}
use radish_os.Outcome.{ok, Ends, Ends->>=}
use radish_os.Cash.Word.Laws.{int_to_string-ends}
use radish_os.Cash.Value.{
  EvalValue, Values, null_value, string_value, int_value, bool_value, vector_value, no_values,
  next_value, to_string, elements_to_string,
}

mutual
  unfolding to_string

  pub to_string-ends : (v : EvalValue) → Ends (λ s. Unit {0}) (to_string v)
  to_string-ends null_value = tt
  to_string-ends (string_value s) = tt
  to_string-ends (int_value i) = int_to_string-ends i
  to_string-ends (bool_value b) = tt
  to_string-ends (vector_value vs) =
      Ends->>= _ (elements_to_string vs) _ (elements-ends vs) (λ s h. tt)

  elements-ends : (vs : Values) → Ends (λ s. Unit {0}) (elements_to_string vs)
  elements-ends no_values = tt
  elements-ends (next_value v vs) =
      Ends->>= _ (to_string v) _ (to_string-ends v)
        λ s h. Ends->>= _ (elements_to_string vs) _ (elements-ends vs) λ t k. tt

pub to_string-string : (s : List ℕ) → to_string (string_value s) ≡ ok s
unfolding to_string
to_string-string s = refl
