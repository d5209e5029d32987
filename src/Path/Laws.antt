-- ===== src/Path/Laws.antt =====
-- The parts of a path: what parsing gives, and that it takes back what joining does.
use radish_os.Prelude.{
  ℕ, zero, suc, ◌≤◌, ◌<◌, ◌≡◌, refl, sym, ap, ◌∙◌, inl, inr, false, List, [], ◌∷◌, ◌++◌, arith,
  ◌==◌, length, length-append, Bool-cases,
}
use mathlib.Core.List.{append_assoc, append-nil}
use radish_os.Outcome.{ok}
use radish_os.Path.{slash, take_part, push_part, parse_loop, is_root, parse_path}

abbrev pub NoSlash : List ℕ → Type 0
NoSlash [] = Unit {0}
NoSlash (c ∷ cs) = ((c == slash) ≡ false) × NoSlash cs

-- names: not empty, and without a slash
abbrev pub AllNames : List (List ℕ) → Type 0
AllNames [] = Unit {0}
AllNames (p ∷ ps) = (0 < length p) × NoSlash p × AllNames ps

-- each part behind a slash
abbrev pub join : List (List ℕ) → List ℕ
join [] = []
join (p ∷ ps) = slash ∷ (p ++ join ps)

AllNames-snoc :
    (ps : List (List ℕ)) (p : List ℕ) → AllNames ps → NoSlash p → AllNames (push_part ps p)
AllNames-snoc ps [] h k = h
AllNames-snoc ps (c ∷ cs) h k = behind ps h
  where
    behind : (qs : List (List ℕ)) → AllNames qs → AllNames (qs ++ (c ∷ cs) ∷ [])
    behind [] h = (omega arith, k, tt)
    behind (q ∷ qs) h = (h.0, h.1, behind qs h.2)

take_part_lem : (cs : List ℕ) → NoSlash (take_part cs).0 × (length (take_part cs).1 ≤ length cs)
unfolding take_part
take_part_lem [] = (tt, omega arith)
take_part_lem (c ∷ cs) =
    let (clean, le) = take_part_lem cs in
    elim (Bool-cases (c == slash)) [
      | inl here ↦ rw here (tt, omega arith)
      | inr other ↦ rw other ((other, clean), omega arith)
    ]

-- a name is taken up to the slash behind it, or the end
take_part-name :
    (p : List ℕ) (ps : List (List ℕ)) → NoSlash p → take_part (p ++ join ps) ≡ (p, join ps)
unfolding take_part
take_part-name [] [] h = refl
take_part-name [] (q ∷ qs) h = refl
take_part-name (c ∷ cs) ps h = simp (h.0, take_part-name cs ps h.1) refl

parse_loop-AllNames :
    (fuel : ℕ) (path : List ℕ) (parts : List (List ℕ))
    → length path ≤ fuel
    → AllNames parts
    → (ps : List (List ℕ)) × (parse_loop fuel path parts ≡ ok ps) × AllNames ps
unfolding parse_loop
parse_loop-AllNames fuel [] parts h n = (parts, refl, n)
parse_loop-AllNames zero (c ∷ cs) parts h n = absurd (omega arith)
parse_loop-AllNames (suc fuel) (c ∷ cs) parts h n =
    let (clean, le) = take_part_lem cs in
    elim (Bool-cases (c == slash)) [
      | inl here ↦ rw here (
          parse_loop-AllNames fuel (take_part cs).1 (push_part parts (take_part cs).0) (omega arith)
            (AllNames-snoc parts (take_part cs).0 n clean))
      | inr other ↦ rw other (parse_loop-AllNames fuel cs parts (omega arith) n)
    ]

-- Of any path but "/", `parsePath` gives parts that are names: not empty, and without a slash.
pub parse_path-AllNames :
    (path : List ℕ)
    → is_root path ≡ false
    → (ps : List (List ℕ)) × (parse_path path ≡ ok ps) × AllNames ps
unfolding parse_path
parse_path-AllNames path h = rw h (parse_loop-AllNames (length path) path [] (omega arith) tt)

parse_loop-join :
    (fuel : ℕ) (ps parts : List (List ℕ))
    → length (join ps) ≤ fuel
    → AllNames ps
    → parse_loop fuel (join ps) parts ≡ ok (parts ++ ps)
unfolding parse_loop
parse_loop-join fuel [] parts h n = ap ok (sym (append-nil parts))
parse_loop-join zero (p ∷ ps) parts h n = absurd (omega arith)
parse_loop-join (suc fuel) ([] ∷ ps) parts h n = absurd (omega (arith, n.0))
parse_loop-join (suc fuel) ((c ∷ cs) ∷ ps) parts h n =
    let p = c ∷ cs in
    let rest =
      parse_loop-join fuel ps (parts ++ p ∷ []) (omega (arith, length-append p (join ps))) n.2 in
    simp (take_part-name p ps n.1) (rest ∙ ap ok (append_assoc parts (p ∷ []) ps))

-- Names, not empty and without a slash, that are joined with a slash before each are parsed back
-- to what they were.
pub parse_path-join : (ps : List (List ℕ)) → AllNames ps → parse_path (join ps) ≡ ok ps
unfolding parse_path parse_loop
parse_path-join [] n = refl
parse_path-join ([] ∷ ps) n = absurd (omega (arith, n.0))
parse_path-join ((c ∷ cs) ∷ ps) n =
    parse_loop-join (length (join ((c ∷ cs) ∷ ps))) ((c ∷ cs) ∷ ps) [] (omega arith) n
