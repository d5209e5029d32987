-- ===== src/Process/Tests.antt =====
-- Three descriptors, of which the second is free, and two children.
use radish_os.Prelude.{ℕ, ◌+◌, ◌≡◌, refl, none, some, List, [], ◌∷◌}
use radish_os.Process.{
  Files, Child, add_file_descriptor, remove_file_descriptor, find_file, find_fd,
}
use radish_os.Process.Descriptors.{find_fd-add}

abbrev files : Files
files = some 1 ∷ none ∷ some 3 ∷ []

find_fd-add_example :
    (id : ℕ) × (find_fd (add_file_descriptor files 7) 7 ≡ id)
    × (find_file (add_file_descriptor files 7) id ≡ some 7)
    × ((j : ℕ)
        → find_file (remove_file_descriptor (add_file_descriptor files 7) 7) j ≡ find_file files j)
find_fd-add_example = find_fd-add files 7 (refl, (refl, tt))

abbrev child : ℕ → Child
child n = record { address = 1000 + n; id = n }

abbrev children : List Child
children = child 1 ∷ child 2 ∷ []
