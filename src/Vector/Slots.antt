-- ===== src/Vector/Slots.antt =====
-- Which objects a vector holds: the slots of its buffer as a list.
use radish_os.Prelude.{
  ℕ, zero, suc, ◌+◌, ◌≤◌, ◌≡◌, refl, sym, ap, ◌∙◌, Bool, true, false, Option, none, some, List, [],
  ◌∷◌, ◌++◌, arith, leb, if◌then◌else◌, length, length-append, get_or, set,
}
use mathlib.Core.List.{append_assoc}
use radish_os.Outcome.{Outcome, ok}
use radish_os.Buffer
use radish_os.Buffer.{Buffer}
use radish_os.Vector.{Vector, extend_loop, copy_loop}

module _ {ℓ} {T : Type ℓ} where
  abbrev pub filled : List T → List (Option T)
  filled [] = []
  filled (x ∷ xs) = some x ∷ filled xs

  pub length-filled : (xs : List T) → length (filled xs) ≡ length xs
  length-filled [] = refl
  length-filled (x ∷ xs) = ap suc (length-filled xs)

  pub filled-append : (xs ys : List T) → filled (xs ++ ys) ≡ filled xs ++ filled ys
  filled-append [] ys = refl
  filled-append (x ∷ xs) ys = ap (λ (l : List (Option T)). some x ∷ l) (filled-append xs ys)

  -- the objects `xs` stand in the first slots; the others are spare
  pub record Holds (v : Vector T) (xs : List T) : Type ℓ where
    pub spare : List (Option T)
    pub slots : v.buf.slots ≡ filled xs ++ spare
    pub counted : v.obj_count ≡ length xs
    pub room : v.capacity ≡ length xs + length spare

  get_or-middle :
      (us : List (Option T)) (a : Option T) (vs : List (Option T))
      → get_or (us ++ a ∷ vs) (length us) none ≡ a
  get_or-middle [] a vs = refl
  get_or-middle (u ∷ us) a vs = get_or-middle us a vs

  set-middle :
      (us : List (Option T)) (a b : Option T) (vs : List (Option T))
      → set (us ++ a ∷ vs) (length us) b ≡ us ++ b ∷ vs
  set-middle [] a b vs = refl
  set-middle (u ∷ us) a b vs = ap (λ (l : List (Option T)). u ∷ l) (set-middle us a b vs)

  inside :
      (us : List (Option T)) (a : Option T) (vs : List (Option T))
      → leb (length (us ++ a ∷ vs)) (length us) ≡ false
  inside us a vs = ground (arith, length-append us (a ∷ vs))

  -- the operations of a buffer at the slot behind `us`
  module _ (us : List (Option T)) (a : Option T) (vs : List (Option T)) where
    abbrev buffer : Buffer T
    buffer = record { slots = us ++ a ∷ vs }

    pub at-middle : Buffer.at buffer (length us) ≡ ok a
    unfolding Buffer.at
    at-middle = simp (inside us a vs, get_or-middle us a vs) refl

    pub assign-middle :
        (b : Option T) → Buffer.assign buffer (length us) b ≡ ok (record { slots = us ++ b ∷ vs })
    unfolding Buffer.assign
    assign-middle b = simp (inside us a vs, set-middle us a b vs) refl

    pub construct-middle :
        (b : Option T)
        → Buffer.construct buffer (length us) b ≡ (true, record { slots = us ++ b ∷ vs })
    unfolding Buffer.construct
    construct-middle b = simp (inside us a vs, set-middle us a b vs) refl

    pub destroy-middle :
        Buffer.destroy buffer (length us) ≡ (true, record { slots = us ++ none ∷ vs })
    unfolding Buffer.destroy
    destroy-middle = simp (inside us a vs, set-middle us a none vs) refl

  -- one slot more before the rest
  pub shift :
      (us : List (Option T)) (a : Option T) (vs : List (Option T))
      → us ++ a ∷ vs ≡ (us ++ a ∷ []) ++ vs
  shift us a vs = sym (append_assoc us (a ∷ []) vs)

  pub length-shift : (us : List (Option T)) (a : Option T) → length us + 1 ≡ length (us ++ a ∷ [])
  length-shift us a = omega (arith, length-append us (a ∷ []))

  -- The loops of `extend` and of the copies differ in what they leave in the old slots.
  abbrev pub loop : Bool → ℕ → ℕ → Buffer T → Buffer T → Outcome (Buffer T)
  loop copies k i old fresh = if copies then copy_loop k i old fresh else extend_loop k i old fresh

  abbrev left_behind : Bool → Option T → Option T
  left_behind copies a = if copies then a else none

  loop_step :
      (copies : Bool) (k i : ℕ) (us ws vs fs : List (Option T)) (a f : Option T)
      → i ≡ length us
      → i ≡ length ws
      → loop copies (suc k) i (record { slots = us ++ a ∷ vs }) (record { slots = ws ++ f ∷ fs })
        ≡ loop copies k
            (i + 1)
            (record { slots = us ++ left_behind copies a ∷ vs })
            (record { slots = ws ++ a ∷ fs })
  unfolding copy_loop extend_loop
  loop_step true k i us ws vs fs a f e e' =
      let r : Buffer.at (record { slots = us ++ a ∷ vs }) i ≡ ok a = rw e (at-middle us a vs) in
      let w : Buffer.construct (record { slots = ws ++ f ∷ fs }) i a
          ≡ (true, record { slots = ws ++ a ∷ fs }) =
        rw e' (construct-middle ws f fs a) in
      simp (r, w) refl
  loop_step false k i us ws vs fs a f e e' =
      let r : Buffer.at (record { slots = us ++ a ∷ vs }) i ≡ ok a = rw e (at-middle us a vs) in
      let d : Buffer.destroy (record { slots = us ++ a ∷ vs }) i
          ≡ (true, record { slots = us ++ none ∷ vs }) =
        rw e (destroy-middle us a vs) in
      let w : Buffer.construct (record { slots = ws ++ f ∷ fs }) i a
          ≡ (true, record { slots = ws ++ a ∷ fs }) =
        rw e' (construct-middle ws f fs a) in
      simp (r, d, w) refl

  loop-done :
      (copies : Bool) (i : ℕ) (old fresh : Buffer T) → loop copies zero i old fresh ≡ ok fresh
  unfolding copy_loop extend_loop
  loop-done true i old fresh = refl
  loop-done false i old fresh = refl

  -- Both put the objects `xs`, which stand behind `us`, into fresh slots behind `ws`.
  pub loop_lem :
      (copies : Bool) (xs : List T) (i : ℕ) (us ws spare fresh : List (Option T))
      → i ≡ length us
      → i ≡ length ws
      → length xs ≤ length fresh
      → (left : List (Option T)) × (length fresh ≡ length xs + length left)
        × (loop copies
              (length xs)
              i
              (record { slots = us ++ (filled xs ++ spare) })
              (record { slots = ws ++ fresh })
            ≡ ok (record { slots = ws ++ (filled xs ++ left) }))
  loop_lem copies [] i us ws spare fresh e f h = (fresh, omega arith, loop-done copies i _ _)
  loop_lem copies (x ∷ xs) i us ws spare [] e f h = absurd (omega arith)
  loop_lem copies (x ∷ xs) i us ws spare (c ∷ fresh) e f h =
      let b = left_behind copies (some x) in
      let (left, k, p) =
        loop_lem copies xs (i + 1) (us ++ b ∷ []) (ws ++ some x ∷ []) spare fresh
          (rw e (length-shift us b)) (rw f (length-shift ws (some x))) (omega arith) in
      (
        left,
        omega (arith, k),
        loop_step copies (length xs) i us ws (filled xs ++ spare) fresh (some x) c e f
            ∙ (rw
                (
                  shift us b (filled xs ++ spare),
                  shift ws (some x) fresh,
                  shift ws (some x) (filled xs ++ left),
                )
                p),
      )
