-- ===== src/Process.antt =====
-- kernel/proc/process.cpp: the file descriptors and the children of a process. Vectors are lists; a
-- descriptor is a pointer to a file, `none` where it is free. A child is given by its address and
-- its id.
pub mod Descriptors
pub mod Children
mod Tests
use radish_os.Prelude.{
  ℕ, zero, suc, ◌+◌, ◌-◌, Bool, true, false, Option, none, some, List, [], ◌∷◌, ◌++◌, ◌==◌,
  if◌then◌else◌,
}
use radish_os.Prelude.Words.{u64_mod}

abbrev pub Files : Type 0
Files = List (Option ℕ)

-- the first free descriptor, or a new one
pub add_file_descriptor : Files → ℕ → Files
add_file_descriptor [] file = some file ∷ []
add_file_descriptor (none ∷ fds) file = some file ∷ fds
add_file_descriptor (some f ∷ fds) file = some f ∷ add_file_descriptor fds file

pub remove_file_descriptor : Files → ℕ → Files
remove_file_descriptor [] file = []
remove_file_descriptor (none ∷ fds) file = none ∷ remove_file_descriptor fds file
remove_file_descriptor (some f ∷ fds) file =
    if f == file then none ∷ fds else some f ∷ remove_file_descriptor fds file

-- `nullptr` out of range
abbrev pub find_file : Files → ℕ → Option ℕ
find_file [] id = none
find_file (fd ∷ fds) zero = fd
find_file (fd ∷ fds) (suc id) = find_file fds id

-- the loop of `findFd`, from index i on; -1 is the greatest `usize`
pub find_fd_loop : Files → ℕ → ℕ → ℕ
find_fd_loop [] i file = u64_mod - 1
find_fd_loop (none ∷ fds) i file = find_fd_loop fds (i + 1) file
find_fd_loop (some f ∷ fds) i file = if f == file then i else find_fd_loop fds (i + 1) file

pub find_fd : Files → ℕ → ℕ
find_fd fds file = find_fd_loop fds 0 file

pub record Child : Type 0 where
  pub address : ℕ
  pub id : ℕ

-- the test of `addChild`
pub has_child : List Child → ℕ → Bool
has_child [] id = false
has_child (c ∷ cs) id = if c.id == id then true else has_child cs id

-- `none` is the result -1
pub add_child : List Child → Child → Option (List Child)
add_child cs child = if has_child cs child.id then none else some (cs ++ child ∷ [])

pub remove_child : List Child → ℕ → Option (List Child)
remove_child [] id = none
remove_child (c ∷ cs) id =
    let rest = remove_child cs id in
    if c.id == id then some cs else elim rest [ none ↦ none | some cs' ↦ some (c ∷ cs') ]
