-- ===== src/Process/Children.antt =====
-- The ids of the children are distinct.
use radish_os.Prelude.{◌≡◌, false, List, [], ◌∷◌}
use radish_os.Process.{Child, has_child}

abbrev pub Distinct : List Child → Type 0
Distinct [] = Unit {0}
Distinct (c ∷ cs) = (has_child cs c.id ≡ false) × Distinct cs
