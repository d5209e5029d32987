-- ===== src/Path.antt =====
-- kernel/fs/path.cpp: `parsePath`. A string is the list of its characters' codes, and the vector of
-- the parts is a list. The loop goes over the rest of the path, on fuel for its length.
pub mod Laws
mod Tests
use radish_os.Prelude.{
  ℕ, zero, suc, Bool, true, false, List, [], ◌∷◌, ◌++◌, ◌==◌, if◌then◌else◌, length,
}
use radish_os.Outcome.{Outcome, ok, out_of_fuel}

abbrev pub slash : ℕ
slash = 47

-- the inner loop: the characters up to the next slash, and the rest
pub take_part : List ℕ → List ℕ × List ℕ
take_part [] = ([], [])
take_part (c ∷ cs) = let r = take_part cs in if c == slash then ([], c ∷ cs) else (c ∷ r.0, r.1)

-- `if (part_buf.length() > 0) parts.pushBack(part_buf)`
abbrev pub push_part : List (List ℕ) → List ℕ → List (List ℕ)
push_part parts [] = parts
push_part parts (c ∷ cs) = parts ++ (c ∷ cs) ∷ []

pub parse_loop : ℕ → List ℕ → List (List ℕ) → Outcome (List (List ℕ))
parse_loop fuel [] parts = ok parts
parse_loop zero (c ∷ cs) parts = out_of_fuel
parse_loop (suc fuel) (c ∷ cs) parts =
    let part = take_part cs in
    let next = parse_loop fuel part.1 (push_part parts part.0) in
    let skip = parse_loop fuel cs parts in if c == slash then next else skip

-- `path == "/"`
abbrev pub is_root : List ℕ → Bool
is_root [] = false
is_root (c ∷ []) = c == slash
is_root (c ∷ d ∷ cs) = false

pub parse_path : List ℕ → Outcome (List (List ℕ))
parse_path path = if is_root path then ok ((slash ∷ []) ∷ []) else parse_loop (length path) path []
