-- ===== src/Vector/Push.antt =====
-- Growing, copying and reading a vector.
use radish_os.Prelude.{
  ℕ, ◌+◌, ◌*◌, ◌%◌, ◌≤◌, ◌<◌, ◌≡◌, refl, sym, ap, ◌∙◌, Bool, true, false, Option, none, some, List,
  [], ◌∷◌, ◌++◌, arith, leb, length, length-append, replicate, length-replicate, Bool-cases, inl,
  inr,
}
use mathlib.Core.List.{append_assoc, append-nil}
use radish_os.Prelude.Words.{u64_mod}
use radish_os.Outcome.{ok, panic, index_out_of_range}
use radish_os.Buffer
use radish_os.Buffer.{Buffer}
use radish_os.Vector.{Vector, extend, copy_loop, push_back, place, copy, to_buffer, at}
use radish_os.Vector.Slots.{filled, length-filled, filled-append, Holds, construct-middle, loop_lem}

module _ {ℓ} {T : Type ℓ} where
  buffer_of :
      {v : Vector T} {xs : List T} (h : Holds v xs)
      → v.buf ≡ record { slots = filled xs ++ h.spare }
  buffer_of h = ap (λ (l : List (Option T)). record { slots = l }) h.slots

  pub Holds-capacity : (v : Vector T) (xs : List T) → Holds v xs → length v.buf.slots ≡ v.capacity
  Holds-capacity v xs h =
      omega (arith, ap length h.slots, length-append (filled xs) h.spare, length-filled xs, h.room)

  extend_lem :
      (v : Vector T) (xs : List T)
      → Holds v xs
      → v.capacity * 2 < u64_mod
      → (v' : Vector T) × (extend v ≡ ok v') × Holds v' xs × (v'.capacity ≡ v.capacity * 2)
  unfolding extend
  extend_lem v xs h b =
      let plain : v.capacity * 2 % u64_mod ≡ v.capacity * 2 = omega arith in
      let (left, k, p) =
        loop_lem false xs 0 [] [] h.spare (replicate (v.capacity * 2) none) refl refl
          (omega (arith, h.room, length-replicate {A = Option T} (v.capacity * 2) none)) in
      (
        record {
          buf = record { slots = filled xs ++ left };
          obj_count = v.obj_count;
          capacity = v.capacity * 2;
        },
        simp (plain, h.counted, buffer_of h, p) refl,
        record {
          spare = left;
          slots = refl;
          counted = h.counted;
          room = omega (arith, k, length-replicate {A = Option T} (v.capacity * 2) none);
        },
        refl,
      )

  place_lem :
      (v : Vector T) (xs : List T) (x : T)
      → Holds v xs
      → length xs < v.capacity
      → Holds (place v x) (xs ++ x ∷ [])
  place_lem v xs x h b = within h.spare h.slots (omega (arith, h.room)) h.room
    where
      placed :
          (s : Option T) (spare : List (Option T))
          → v.buf.slots ≡ filled xs ++ s ∷ spare
          → Buffer.construct v.buf v.obj_count (some x)
            ≡ (true, record { slots = filled xs ++ some x ∷ spare })
      placed s spare e =
          let at_end : v.obj_count ≡ length (filled xs) = h.counted ∙ sym (length-filled xs) in
          let buf : v.buf ≡ record { slots = filled xs ++ s ∷ spare } =
            ap (λ (l : List (Option T)). record { slots = l }) e in
          rw (at_end, buf) (construct-middle (filled xs) s spare (some x))

      within :
          (spare : List (Option T))
          → v.buf.slots ≡ filled xs ++ spare
          → 0 < length spare
          → v.capacity ≡ length xs + length spare
          → Holds (place v x) (xs ++ x ∷ [])
      within [] e pos room = absurd (omega arith)
      within (s ∷ spare) e pos room = record {
        spare = spare;
        slots =
            ap (λ (r : Bool × Buffer T). r.1.slots) (placed s spare e)
            ∙ sym (
                ap (λ (l : List (Option T)). l ++ spare) (filled-append xs (x ∷ []))
                ∙ append_assoc (filled xs) (some x ∷ []) spare);
        counted = omega (arith, h.counted, length-append xs (x ∷ []));
        room = omega (arith, length-append xs (x ∷ []));
      }

  -- In a vector with a capacity above 0, the double of which is below 2 ^ 64, `pushBack` ends
  -- without an access out of bounds: the objects are those before and the new one behind them, and
  -- the capacity is at least what it was.
  pub push_back_lem :
      (v : Vector T) (xs : List T) (x : T)
      → Holds v xs
      → 0 < v.capacity
      → v.capacity * 2 < u64_mod
      → (v' : Vector T) × (push_back v x ≡ ok v')
        × Holds v' (xs ++ x ∷ [])
        × (v.capacity ≤ v'.capacity)
  unfolding push_back
  push_back_lem v xs x h pos b = elim (Bool-cases (leb v.capacity v.obj_count)) [
    | inr fits ↦
        (place v x, rw fits refl, place_lem v xs x h (ground (arith, h.counted)), omega arith)
    | inl full ↦
        let (w, e, g, k) = extend_lem v xs h b in
        (
          place w x,
          simp (full, e) refl,
          place_lem w xs x g (omega (arith, h.room, k)),
          omega (arith, k),
        )
  ]

  no_slots : (l : List (Option T)) → length l ≡ 0 → l ≡ []
  no_slots [] h = refl
  no_slots (s ∷ l) h = absurd (omega arith)

  -- what was constructed outside a buffer cannot be read
  lost :
      (b : Buffer T) (i : ℕ) (slot : Option T)
      → length b.slots ≡ 0
      → Buffer.at (Buffer.construct b i slot).1 0 ≡ panic index_out_of_range
  unfolding Buffer.at Buffer.construct
  lost b i slot h =
      let outside : leb (length b.slots) i ≡ true = ground arith in
      let none_there : leb (length b.slots) 0 ≡ true = ground arith in
      simp (outside, none_there) refl

  read :
      (v : Vector T)
      → leb v.obj_count 0 ≡ false
      → Buffer.at v.buf 0 ≡ panic index_out_of_range
      → at v 0 ≡ panic index_out_of_range
  unfolding at
  read v counted e = rw counted e

  -- In a vector of capacity 0, as a move or `resize(0)` leaves it, `pushBack` counts the object but
  -- keeps no place for it: reading it back panics.
  pub push_back-no_capacity :
      (v : Vector T) (x : T)
      → Holds v []
      → v.capacity ≡ 0
      → (v' : Vector T) × (push_back v x ≡ ok v')
        × (v'.obj_count ≡ 1)
        × (at v' 0 ≡ panic index_out_of_range)
  unfolding push_back
  push_back-no_capacity v x h none_left =
      let (w, e, g, k) = extend_lem v [] h (omega arith) in
      let full : leb v.capacity v.obj_count ≡ true = ground (arith, h.counted) in
      let short : length w.buf.slots ≡ 0 = omega (arith, Holds-capacity w [] g, k) in
      (
        place w x,
        simp (full, e) refl,
        omega (arith, g.counted),
        read (place w x) (ground arith) (lost w.buf w.obj_count (some x) short),
      )

  -- Copying a vector ends and gives the same objects, with the same capacity.
  pub copy_lem :
      (v : Vector T) (xs : List T)
      → Holds v xs
      → (v' : Vector T) × (copy v ≡ ok v') × Holds v' xs × (v'.capacity ≡ v.capacity)
  unfolding copy
  copy_lem v xs h =
      let (left, k, p) =
        loop_lem true xs 0 [] [] h.spare (replicate v.capacity none) refl refl
          (omega (arith, h.room, length-replicate {A = Option T} v.capacity none)) in
      (
        record {
          buf = record { slots = filled xs ++ left };
          obj_count = v.obj_count;
          capacity = v.capacity;
        },
        simp (h.counted, buffer_of h, p) refl,
        record {
          spare = left;
          slots = refl;
          counted = h.counted;
          room = omega (arith, k, length-replicate {A = Option T} v.capacity none);
        },
        refl,
      )

  -- `toBuffer` ends and gives a buffer of exactly the objects, in their order.
  pub to_buffer_lem :
      (v : Vector T) (xs : List T) → Holds v xs → to_buffer v ≡ ok (record { slots = filled xs })
  unfolding to_buffer
  to_buffer_lem v xs h =
      let (left, k, p) =
        loop_lem true xs 0 [] [] h.spare (replicate v.obj_count none) refl refl
          (omega (arith, h.counted, length-replicate {A = Option T} v.obj_count none)) in
      let none_left : left ≡ [] =
        no_slots left
          (omega (arith, k, h.counted, length-replicate {A = Option T} v.obj_count none)) in
      let all : filled xs ++ left ≡ filled xs = rw none_left (append-nil (filled xs)) in
      let start : to_buffer v
          ≡ copy_loop (length xs) 0 (record { slots = filled xs ++ h.spare })
              (record { slots = replicate v.obj_count none }) =
        rw (← buffer_of h, ← h.counted) refl in
      start ∙ (p ∙ ap (λ (l : List (Option T)). ok (record { slots = l })) all)
