-- ===== src/Process/Descriptors.antt =====
-- Which descriptor a file gets, and what becomes of the others.
use radish_os.Prelude.{
  ℕ, zero, suc, ◌+◌, ◌<◌, ◌≡◌, refl, ◌∙◌, true, false, none, some, [], ◌∷◌, arith, ◌==◌,
  if◌then◌else◌,
}
use radish_os.Process.{
  Files, add_file_descriptor, remove_file_descriptor, find_file, find_fd, find_fd_loop,
}

-- no descriptor names the file
abbrev pub Unused : Files → ℕ → Type 0
Unused [] file = Unit {0}
Unused (none ∷ fds) file = Unused fds file
Unused (some f ∷ fds) file = ((f == file) ≡ false) × Unused fds file

-- `id` is the first free descriptor, and the only one that changed, to `file`
pub record Opened (fds fds' : Files) (file id : ℕ) : Type 0 where
  pub was_free : find_file fds id ≡ none
  pub lowest : (j : ℕ) → j < id → (f : ℕ) × (find_file fds j ≡ some f)
  pub others : (j : ℕ) → find_file fds' j ≡ (if j == id then some file else find_file fds j)

-- `addFileDescriptor` gives a file the first free descriptor, or a new one behind the last, and
-- changes no other.
pub add-Opened :
    (fds : Files) (file : ℕ) → (id : ℕ) × Opened fds (add_file_descriptor fds file) file id
unfolding add_file_descriptor
add-Opened [] file =
    (0, record { was_free = refl; lowest = λ j h. absurd (omega arith); others = first })
  where
    first : (j : ℕ) → find_file (some file ∷ []) j ≡ (if j == 0 then some file else none)
    first zero = refl
    first (suc j) = ground arith
add-Opened (none ∷ fds) file =
    (0, record { was_free = refl; lowest = λ j h. absurd (omega arith); others = first })
  where
    first :
        (j : ℕ)
        → find_file (some file ∷ fds) j ≡ (if j == 0 then some file else find_file (none ∷ fds) j)
    first zero = refl
    first (suc j) = ground arith
add-Opened (some f ∷ fds) file =
    let (id, o) = add-Opened fds file in
    (
      suc id,
      record {
        was_free = o.was_free;
        lowest = earlier id o.lowest;
        others = same id (add_file_descriptor fds file) o.others;
      },
    )
  where
    earlier :
        (id : ℕ)
        → ((j : ℕ) → j < id → (g : ℕ) × (find_file fds j ≡ some g))
        → (j : ℕ) → j < suc id
        → (g : ℕ) × (find_file (some f ∷ fds) j ≡ some g)
    earlier id k zero h = (f, refl)
    earlier id k (suc j) h = k j (omega arith)

    same :
        (id : ℕ) (fds' : Files)
        → ((j : ℕ) → find_file fds' j ≡ (if j == id then some file else find_file fds j))
        → (j : ℕ)
        → find_file (some f ∷ fds') j
          ≡ (if j == suc id then some file else find_file (some f ∷ fds) j)
    same id fds' k zero = ground arith
    same id fds' k (suc j) = ground (arith, k j)

find_fd_loop-add :
    (fds : Files) (file i : ℕ)
    → Unused fds file
    → (id : ℕ) × (find_fd_loop (add_file_descriptor fds file) i file ≡ i + id)
      × (find_file (add_file_descriptor fds file) id ≡ some file)
unfolding find_fd_loop add_file_descriptor
find_fd_loop-add [] file i u = (0, ground arith, refl)
find_fd_loop-add (none ∷ fds) file i u = (0, ground arith, refl)
find_fd_loop-add (some f ∷ fds) file i u =
    let (id, e, k) = find_fd_loop-add fds file (i + 1) u.1 in
    (suc id, simp (u.0) (e ∙ omega arith), k)

remove-add :
    (fds : Files) (file j : ℕ)
    → Unused fds file
    → find_file (remove_file_descriptor (add_file_descriptor fds file) file) j ≡ find_file fds j
unfolding add_file_descriptor remove_file_descriptor
remove-add [] file zero u = ground arith
remove-add [] file (suc j) u = ground arith
remove-add (none ∷ fds) file j u =
    let itself : (file == file) ≡ true = ground arith in simp (itself) refl
remove-add (some f ∷ fds) file zero u = simp (u.0) refl
remove-add (some f ∷ fds) file (suc j) u = simp (u.0) (remove-add fds file j u.1)

-- A file that no descriptor names gets one from `addFileDescriptor`, which `findFd` finds and
-- `findFile` leads back to the file; after `removeFileDescriptor` every descriptor leads where it
-- led before.
pub find_fd-add :
    (fds : Files) (file : ℕ)
    → Unused fds file
    → (id : ℕ) × (find_fd (add_file_descriptor fds file) file ≡ id)
      × (find_file (add_file_descriptor fds file) id ≡ some file)
      × ((j : ℕ)
          → find_file (remove_file_descriptor (add_file_descriptor fds file) file) j
            ≡ find_file fds j)
unfolding find_fd
find_fd-add fds file u =
    let (id, e, k) = find_fd_loop-add fds file 0 u in
    (id, e ∙ omega arith, k, λ j. remove-add fds file j u)
