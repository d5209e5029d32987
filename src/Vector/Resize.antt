-- ===== src/Vector/Resize.antt =====
-- Clearing and resizing a vector.
use radish_os.Prelude.{
  ℕ, zero, suc, ◌+◌, ◌-◌, ◌≤◌, ◌≡◌, refl, ap, ◌∙◌, inl, inr, Option, none, some, List, [], ◌∷◌,
  ◌++◌, arith, leb, ltb, if◌then◌else◌, length, length-append, length-set, set, Bool-cases,
}
use radish_os.Buffer
use radish_os.Buffer.{Buffer}
use radish_os.Vector.{Vector, destroy_loop, clear, resize}
use radish_os.Vector.Slots.{filled, length-filled, Holds}

module _ {ℓ} {T : Type ℓ} where
  -- the first n objects
  abbrev pub take : ℕ → List T → List T
  take zero xs = []
  take (suc n) [] = []
  take (suc n) (x ∷ xs) = x ∷ take n xs

  set-beyond :
      (us l : List (Option T)) (i : ℕ) (b : Option T)
      → length us ≤ i
      → (l' : List (Option T)) × (set (us ++ l) i b ≡ us ++ l') × (length l' ≡ length l)
  set-beyond [] l i b h = (set l i b, refl, length-set l i b)
  set-beyond (u ∷ us) l zero b h = absurd (omega arith)
  set-beyond (u ∷ us) l (suc i) b h =
      let (l', e, k) = set-beyond us l i b (omega arith) in
      (l', ap (λ (m : List (Option T)). u ∷ m) e, k)

  destroy-beyond :
      (us l : List (Option T)) (i : ℕ)
      → length us ≤ i
      → (l' : List (Option T)) × ((Buffer.destroy (record { slots = us ++ l }) i).1
          ≡ record { slots = us ++ l' })
        × (length l' ≡ length l)
  unfolding Buffer.destroy
  destroy-beyond us l i h = elim (Bool-cases (leb (length (us ++ l)) i)) [
    | inl outside ↦ (l, rw outside refl, refl)
    | inr within ↦
        let (l', e, k) = set-beyond us l i none h in
        (l', rw within (ap (λ (m : List (Option T)). record { slots = m }) e), k)
  ]

  -- the slots before the first that is destroyed stay
  destroy_loop_lem :
      (k i : ℕ) (us l : List (Option T))
      → length us ≤ i
      → (l' : List (Option T)) × (destroy_loop k i (record { slots = us ++ l })
          ≡ record { slots = us ++ l' })
        × (length l' ≡ length l)
  unfolding destroy_loop
  destroy_loop_lem zero i us l h = (l, refl, refl)
  destroy_loop_lem (suc k) i us l h =
      let (m, e, c) = destroy-beyond us l i h in
      let (l', f, d) = destroy_loop_lem k (i + 1) us m (omega arith) in
      (l', ap (destroy_loop k (i + 1)) e ∙ f, d ∙ c)

  -- `clear` leaves no object, and the capacity as it was.
  pub clear_lem :
      (v : Vector T) (xs : List T)
      → Holds v xs
      → Holds (clear v) [] × ((clear v).capacity ≡ v.capacity)
  unfolding clear
  clear_lem v xs h =
      let (l, e, k) = destroy_loop_lem v.obj_count 0 [] v.buf.slots (omega arith) in
      (
        record {
          spare = l;
          slots = ap (λ (b : Buffer T). b.slots) e;
          counted = refl;
          room = omega (
            arith,
            k,
            ap length h.slots,
            length-append (filled xs) h.spare,
            length-filled xs,
            h.room,
          );
        },
        refl,
      )

  length-resized :
      (default : T) (n : ℕ) (l : List (Option T)) → length (Buffer.resized default n l) ≡ n
  unfolding Buffer.resized
  length-resized default zero l = refl
  length-resized default (suc n) [] = ap suc (length-resized default n [])
  length-resized default (suc n) (s ∷ l) = ap suc (length-resized default n l)

  -- `resize` keeps the first objects in their order, as many as the new size has room for
  resized_lem :
      (default : T) (n : ℕ) (xs : List T) (spare : List (Option T))
      → (left : List (Option T)) × (Buffer.resized default n (filled xs ++ spare)
          ≡ filled (take n xs) ++ left)
        × (n ≡ length (take n xs) + length left)
  unfolding Buffer.resized
  resized_lem default zero xs spare = ([], refl, refl)
  resized_lem default (suc n) [] spare = (
    Buffer.resized default (suc n) spare,
    refl,
    omega (arith, length-resized default (suc n) spare),
  )
  resized_lem default (suc n) (x ∷ xs) spare =
      let (left, e, k) = resized_lem default n xs spare in
      (left, ap (λ (m : List (Option T)). some x ∷ m) e, omega arith)

  length-take :
      (n : ℕ) (xs : List T) → length (take n xs) ≡ (if ltb n (length xs) then n else length xs)
  length-take zero [] = refl
  length-take zero (x ∷ xs) = ground arith
  length-take (suc n) [] = ground arith
  length-take (suc n) (x ∷ xs) = ground (arith, length-take n xs)

  split-at :
      (n : ℕ) (xs : List T) (spare : List (Option T))
      → (l : List (Option T)) × (filled xs ++ spare ≡ filled (take n xs) ++ l)
        × (length (take n xs) ≤ n)
  split-at zero xs spare = (filled xs ++ spare, refl, omega arith)
  split-at (suc n) [] spare = (spare, refl, omega arith)
  split-at (suc n) (x ∷ xs) spare =
      let (l, e, k) = split-at n xs spare in
      (l, ap (λ (m : List (Option T)). some x ∷ m) e, omega arith)

  take-take : (n : ℕ) (xs : List T) → take n (take n xs) ≡ take n xs
  take-take zero xs = refl
  take-take (suc n) [] = refl
  take-take (suc n) (x ∷ xs) = ap (λ (m : List T). x ∷ m) (take-take n xs)

  -- `resize(n)` keeps the first n objects, or all if there are fewer, and has capacity n.
  pub resize_lem :
      (default : T) (v : Vector T) (xs : List T) (n : ℕ)
      → Holds v xs
      → Holds (resize default v n) (take n xs) × ((resize default v n).capacity ≡ n)
  unfolding resize
  resize_lem default v xs n h =
      let (l, e, le) = split-at n xs h.spare in
      let at : length (filled (take n xs)) ≤ n = omega (arith, length-filled (take n xs)) in
      let (l', f, k) = destroy_loop_lem (v.obj_count - n) n (filled (take n xs)) l at in
      let (left, g, c) = resized_lem default n (take n xs) l' in
      let buf : v.buf ≡ record { slots = filled (take n xs) ++ l } =
        ap (λ (m : List (Option T)). record { slots = m }) (h.slots ∙ e) in
      let destroyed : destroy_loop (v.obj_count - n) n v.buf
          ≡ record { slots = filled (take n xs) ++ l' } =
        ap (destroy_loop (v.obj_count - n) n) buf ∙ f in
      (
        record {
          spare = left;
          slots =
              ap (λ (b : Buffer T). Buffer.resized default n b.slots) destroyed
              ∙ (g ∙ rw take-take refl);
          counted = ground (arith, h.counted, length-take n xs);
          room = c ∙ rw take-take refl;
        },
        refl,
      )
