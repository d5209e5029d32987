-- ===== src/LinkedList/Nodes.antt =====
-- The nodes that a list passes through, with what each holds.
use radish_os.Prelude.{
  ℕ, zero, suc, ◌<◌, ◌≡◌, refl, Option, none, some, List, [], ◌∷◌, ◌++◌, arith, length,
}
use radish_os.Outcome.{ok}
use radish_os.LinkedList.{LinkedListHeader, Memory, last_loop}

abbrev pub Nodes {ℓ} : Type ℓ → Type ℓ
Nodes P = List (ℕ × P)

module _ {ℓ} {P : Type ℓ} where
  abbrev pub header : Option ℕ → Option ℕ → P → LinkedListHeader P
  header n p r = record { next = n; prev = p; rest = r }

  -- the address of the first node, or what follows if there is none
  abbrev pub head_or : Nodes P → Option ℕ → Option ℕ
  head_or [] stop = stop
  head_or ((a, r) ∷ xs) stop = some a

  -- the address of the last node, or what comes before if there is none
  abbrev pub last_or : Nodes P → Option ℕ → Option ℕ
  last_or [] start = start
  last_or ((a, r) ∷ xs) start = last_or xs (some a)

  -- From the node behind `start` the pointers lead through `xs` to `stop`, and back.
  abbrev pub Linked : Memory P → Option ℕ → Nodes P → Option ℕ → Type ℓ
  Linked m start [] stop = Unit
  Linked m start ((a, r) ∷ xs) stop =
      (m a ≡ header (head_or xs stop) start r) × Linked m (some a) xs stop

  pub head_or-append :
      (xs ys : Nodes P) (stop : Option ℕ) → head_or (xs ++ ys) stop ≡ head_or xs (head_or ys stop)
  head_or-append [] ys stop = refl
  head_or-append ((a, r) ∷ xs) ys stop = refl

  pub Linked-append :
      (m : Memory P) (start : Option ℕ) (xs ys : Nodes P) (stop : Option ℕ)
      → Linked m start xs (head_or ys stop)
      → Linked m (last_or xs start) ys stop
      → Linked m start (xs ++ ys) stop
  Linked-append m start [] ys stop h k = k
  Linked-append m start ((a, r) ∷ xs) ys stop h k =
      (rw head_or-append h.0, Linked-append m (some a) xs ys stop h.1 k)

  pub Linked-front :
      (m : Memory P) (start : Option ℕ) (xs ys : Nodes P) (stop : Option ℕ)
      → Linked m start (xs ++ ys) stop
      → Linked m start xs (head_or ys stop)
  Linked-front m start [] ys stop h = tt
  Linked-front m start ((a, r) ∷ xs) ys stop h =
      (rw (← head_or-append xs ys stop) h.0, Linked-front m (some a) xs ys stop h.1)

  pub Linked-back :
      (m : Memory P) (start : Option ℕ) (xs ys : Nodes P) (stop : Option ℕ)
      → Linked m start (xs ++ ys) stop
      → Linked m (last_or xs start) ys stop
  Linked-back m start [] ys stop h = h
  Linked-back m start ((a, r) ∷ xs) ys stop h = Linked-back m (some a) xs ys stop h.1

  -- `last` finds the last node.
  pub last_loop_lem :
      (fuel : ℕ) (m : Memory P) (start : Option ℕ) (a : ℕ) (r : P) (xs : Nodes P)
      → length xs < fuel
      → Linked m start ((a, r) ∷ xs) none
      → (z : ℕ) × (last_loop fuel m a ≡ ok z) × (last_or xs (some a) ≡ some z)
  unfolding last_loop
  last_loop_lem zero m start a r xs h l = absurd (omega arith)
  last_loop_lem (suc fuel) m start a r [] h l = (a, rw (l.0, last_loop), refl)
  last_loop_lem (suc fuel) m start a r ((b, s) ∷ xs) h l =
      let (z, e, k) = last_loop_lem fuel m (some a) b s xs (omega arith) l.1 in
      (z, rw (l.0, last_loop) e, k)
