-- ===== src/Path/Tests.antt =====
-- The paths "/bin/ls" and "/".
use radish_os.Prelude.{ℕ, ◌≡◌, refl, List, [], ◌∷◌, arith}
use radish_os.Outcome.{ok}
use radish_os.Path.{parse_path}
use radish_os.Path.Laws.{parse_path-join}

abbrev names : List (List ℕ)
names = (98 ∷ 105 ∷ 110 ∷ []) ∷ (108 ∷ 115 ∷ []) ∷ []

parse_path-join_example : parse_path (47 ∷ 98 ∷ 105 ∷ 110 ∷ 47 ∷ 108 ∷ 115 ∷ []) ≡ ok names
parse_path-join_example =
    parse_path-join names
      (omega arith, (refl, (refl, (refl, tt))), (omega arith, (refl, (refl, tt)), tt))
