-- ===== src/Vector/Remove.antt =====
-- Reading from a vector, and taking objects out of it.
use radish_os.Prelude.{
  ℕ, zero, suc, ◌+◌, ◌-◌, ◌*◌, ◌≤◌, ◌<◌, ◌≡◌, refl, sym, ap, ◌∙◌, ◌⊎◌, inl, inr, true, false,
  Option, none, some, List, [], ◌∷◌, ◌++◌, arith, leb, ltb, length, length-append,
}
use mathlib.Core.List.{append_assoc}
use radish_os.Outcome.{Outcome, ok, panic, index_out_of_range}
use radish_os.Buffer
use radish_os.Buffer.{Buffer}
use radish_os.Prelude.Words.{u64_mod}
use radish_os.Vector.{Vector, at, pop_back, push_back, erase, erase_loop}
use radish_os.Vector.Push.{push_back_lem}
use radish_os.Vector.Slots.{
  filled, length-filled, filled-append, Holds, at-middle, assign-middle, destroy-middle, shift,
  length-shift,
}

module _ {ℓ} {T : Type ℓ} where
  -- the object at an index, of a list
  abbrev pub get_elem? : List T → ℕ → Option T
  get_elem? [] i = none
  get_elem? (x ∷ xs) zero = some x
  get_elem? (x ∷ xs) (suc i) = get_elem? xs i

  -- an index is within a list, and splits it, or is outside
  index_cases :
      (xs : List T) (i : ℕ)
      → ((us : List T) × (a : T) × (vs : List T) × (xs ≡ us ++ a ∷ vs) × (i ≡ length us))
        ⊎ (length xs ≤ i)
  index_cases [] i = inr (omega arith)
  index_cases (x ∷ xs) zero = inl ([], x, xs, refl, refl)
  index_cases (x ∷ xs) (suc i) = elim (index_cases xs i) [
    | inr out ↦ inr (omega arith)
    | inl (us, a, vs, e, f) ↦ inl (x ∷ us, a, vs, ap (λ (l : List T). x ∷ l) e, omega arith)
  ]

  get_elem?-middle :
      (us : List T) (a : T) (vs : List T) → get_elem? (us ++ a ∷ vs) (length us) ≡ some a
  get_elem?-middle [] a vs = refl
  get_elem?-middle (u ∷ us) a vs = get_elem?-middle us a vs

  get_elem?-outside : (xs : List T) (i : ℕ) → length xs ≤ i → get_elem? xs i ≡ none
  get_elem?-outside [] i h = refl
  get_elem?-outside (x ∷ xs) zero h = absurd (omega arith)
  get_elem?-outside (x ∷ xs) (suc i) h = get_elem?-outside xs i (omega arith)

  -- the buffer of a vector, around one of its objects
  around :
      (v : Vector T) (us : List T) (a : T) (vs : List T) (h : Holds v (us ++ a ∷ vs))
      → v.buf ≡ record { slots = filled us ++ some a ∷ (filled vs ++ h.spare) }
  around v us a vs h =
      ap (λ (l : List (Option T)). record { slots = l })
        (h.slots
          ∙ (ap (λ (l : List (Option T)). l ++ h.spare) (filled-append us (a ∷ vs))
              ∙ append_assoc (filled us) (some a ∷ filled vs) h.spare))

  at-inside :
      (v : Vector T) (us : List T) (a : T) (vs : List T)
      → Holds v (us ++ a ∷ vs)
      → at v (length us) ≡ ok (some a)
  unfolding at
  at-inside v us a vs h =
      let inside : leb v.obj_count (length us) ≡ false =
        ground (arith, h.counted, length-append us (a ∷ vs)) in
      let read : Buffer.at v.buf (length us) ≡ ok (some a) =
        rw (around v us a vs h, ← length-filled us)
          (at-middle (filled us) (some a) (filled vs ++ h.spare)) in
      rw inside read

  at-outside :
      (v : Vector T) (xs : List T) (i : ℕ)
      → Holds v xs
      → length xs ≤ i
      → at v i ≡ panic index_out_of_range
  unfolding at
  at-outside v xs i h out =
      let outside : leb v.obj_count i ≡ true = ground (arith, h.counted) in rw outside refl

  abbrev read_of : Option T → Outcome (Option T)
  read_of none = panic index_out_of_range
  read_of (some x) = ok (some x)

  -- Reading index i gives the i-th object, and panics where there is none.
  pub at-get_elem? :
      (v : Vector T) (xs : List T) (i : ℕ) → Holds v xs → at v i ≡ read_of (get_elem? xs i)
  at-get_elem? v xs i h = elim (index_cases xs i) [
    | inr out ↦ at-outside v xs i h out ∙ ap read_of (sym (get_elem?-outside xs i out))
    | inl (us, a, vs, e, f) ↦
        rw (f, e) (at-inside v us a vs (rw e at h) ∙ ap read_of (sym (get_elem?-middle us a vs)))
  ]

  -- `popBack` takes the last object out, and gives `T{}` where there is none.
  pub pop_back_lem :
      (default : T) (v : Vector T) (xs : List T) (x : T)
      → Holds v (xs ++ x ∷ [])
      → (v' : Vector T) × (pop_back default v ≡ ok (some x, v')) × Holds v' xs
  unfolding pop_back
  pop_back_lem default v xs x h =
      let some_left : ltb 0 v.obj_count ≡ true =
        ground (arith, h.counted, length-append xs (x ∷ [])) in
      let last : v.obj_count - 1 ≡ length (filled xs) =
        omega (arith, h.counted, length-append xs (x ∷ []), length-filled xs) in
      let read : Buffer.at v.buf (v.obj_count - 1) ≡ ok (some x) =
        rw (last, around v xs x [] h) (at-middle (filled xs) (some x) h.spare) in
      let gone : Buffer.destroy v.buf (v.obj_count - 1)
          ≡ (true, record { slots = filled xs ++ none ∷ h.spare }) =
        rw (last, around v xs x [] h) (destroy-middle (filled xs) (some x) h.spare) in
      (
        record {
          buf = record { slots = filled xs ++ none ∷ h.spare };
          obj_count = v.obj_count - 1;
          capacity = v.capacity;
        },
        simp (some_left, read, gone) refl,
        record {
          spare = none ∷ h.spare;
          slots = refl;
          counted = last ∙ length-filled xs;
          room = omega (arith, h.room, length-append xs (x ∷ []));
        },
      )

  erase_loop_lem :
      (vs : List T) (i : ℕ) (us : List (Option T)) (a : Option T) (spare : List (Option T))
      → i ≡ length us
      → (l : Option T) × (erase_loop
            (length vs)
            i
            (record { slots = us ++ a ∷ (filled vs ++ spare) })
          ≡ ok (record { slots = us ++ (filled vs ++ l ∷ spare) }))
  unfolding erase_loop
  erase_loop_lem [] i us a spare e = (a, refl)
  erase_loop_lem (v ∷ vs) i us a spare e =
      let (l, p) =
        erase_loop_lem vs (i + 1) (us ++ some v ∷ []) (some v) spare
          (rw e (length-shift us (some v))) in
      let rest = filled vs ++ spare in
      let read : Buffer.at (record { slots = us ++ a ∷ some v ∷ rest }) (i + 1) ≡ ok (some v) =
        rw (e, length-shift us a, shift us a (some v ∷ rest))
          (at-middle (us ++ a ∷ []) (some v) rest) in
      let moved : Buffer.assign (record { slots = us ++ a ∷ some v ∷ rest }) i (some v)
          ≡ ok (record { slots = us ++ some v ∷ some v ∷ rest }) =
        rw e (assign-middle us a (some v ∷ rest) (some v)) in
      (
        l,
        simp (read, moved)
            (rw (shift us (some v) (some v ∷ rest), shift us (some v) (filled vs ++ l ∷ spare)) p),
      )

  erase-inside :
      (v : Vector T) (us : List T) (a : T) (vs : List T)
      → Holds v (us ++ a ∷ vs)
      → (v' : Vector T) × (erase v (length us) ≡ ok (true, v')) × Holds v' (us ++ vs)
  unfolding erase
  erase-inside v us a vs h =
      let (l, p) =
        erase_loop_lem vs (length us) (filled us) (some a) h.spare (sym (length-filled us)) in
      let total : v.obj_count ≡ length us + suc (length vs) =
        h.counted ∙ length-append us (a ∷ vs) in
      let inside : leb v.obj_count (length us) ≡ false = ground arith in
      let rounds : v.obj_count - 1 - length us ≡ length vs = omega arith in
      let joined : filled us ++ (filled vs ++ l ∷ h.spare) ≡ filled (us ++ vs) ++ l ∷ h.spare =
        rw filled-append (sym (append_assoc (filled us) (filled vs) (l ∷ h.spare))) in
      let shifted : erase_loop (v.obj_count - 1 - length us) (length us) v.buf
          ≡ ok (record { slots = filled (us ++ vs) ++ l ∷ h.spare }) =
        rw (rounds, around v us a vs h, ← joined) p in
      let last : v.obj_count - 1 ≡ length (filled (us ++ vs)) =
        omega (arith, length-filled (us ++ vs), length-append us vs) in
      let gone : Buffer.destroy (record { slots = filled (us ++ vs) ++ l ∷ h.spare })
            (v.obj_count - 1)
          ≡ (true, record { slots = filled (us ++ vs) ++ none ∷ h.spare }) =
        rw last (destroy-middle (filled (us ++ vs)) l h.spare) in
      (
        record {
          buf = record { slots = filled (us ++ vs) ++ none ∷ h.spare };
          obj_count = v.obj_count - 1;
          capacity = v.capacity;
        },
        simp (inside, shifted, gone) refl,
        record {
          spare = none ∷ h.spare;
          slots = refl;
          counted = omega (arith, last, length-filled (us ++ vs));
          room = omega (arith, h.room, length-append us (a ∷ vs), length-append us vs);
        },
      )

  -- `erase` of an index takes the object there out and keeps the others in order, without an access
  -- out of bounds; at an index where there is no object it returns false and changes nothing.
  pub erase_lem :
      (v : Vector T) (xs : List T) (i : ℕ)
      → Holds v xs
      → ((v' : Vector T) × (us : List T) × (a : T) × (vs : List T) × (erase v i ≡ ok (true, v'))
          × (xs ≡ us ++ a ∷ vs)
          × (i ≡ length us)
          × Holds v' (us ++ vs))
        ⊎ ((length xs ≤ i) × (erase v i ≡ ok (false, v)))
  unfolding erase
  erase_lem v xs i h = elim (index_cases xs i) [
    | inr out ↦
        let outside : leb v.obj_count i ≡ true = ground (arith, h.counted) in
        inr (out, rw outside refl)
    | inl (us, a, vs, e, f) ↦
        let (v', p, g) = erase-inside v us a vs (rw e at h) in inl (v', us, a, vs, rw f p, e, f, g)
  ]

  -- In a vector with a capacity above 0, the double of which is below 2 ^ 64, taking back what was
  -- pushed gives the object, and leaves the objects that were there.
  pub pop_back-push_back :
      (default : T) (v : Vector T) (xs : List T) (x : T)
      → Holds v xs
      → 0 < v.capacity
      → v.capacity * 2 < u64_mod
      → (v' v'' : Vector T) × (push_back v x ≡ ok v')
        × (pop_back default v' ≡ ok (some x, v''))
        × Holds v'' xs
  pop_back-push_back default v xs x h pos b =
      let (v', e, g, le) = push_back_lem v xs x h pos b in
      let (v'', f, k) = pop_back_lem default v' xs x g in (v', v'', e, f, k)
