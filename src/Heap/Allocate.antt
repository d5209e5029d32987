-- ===== src/Heap/Allocate.antt =====
-- `allocate` as its clients see it.
use radish_os.Prelude.{
  ℕ, ◌+◌, ◌-◌, ◌*◌, ◌/◌, ◌≤◌, ◌<◌, ◌≡◌, refl, sym, ◌∙◌, true, ◌⊎◌, inl, inr, none, some, List, ◌∷◌,
  ◌++◌, arith, leb, Bool-cases,
}
use radish_os.Prelude.Words.{u64_mod, add64}
use radish_os.Outcome.{ok, panic, Panic}
use radish_os.Bytes.{page_size, align_up, align_up_lem}
use radish_os.LinkedList.Nodes.{Nodes}
use radish_os.Heap.{
  Block, HeapAllocator, PageMapper, header_size, block_fuel, find_free_block, take_block, allocate,
}
use radish_os.Heap.Layout.{live, live-append}
use radish_os.Heap.Invariant.{MapPanics, Represents, Represents-head, Represents-fuel}
use radish_os.Heap.Search.{NoneFits, FirstFit, find_loop_lem}
use radish_os.Heap.Take.{carved, after, take_block_lem}
use radish_os.Heap.Grow.{extend_times_lem, NoneFits-room}

-- `h'` has one more block in use than `xs` has: m bytes at p, at least n. No other block in use
-- has moved or changed its size.
pub record Allocated {S : Type 0} (h' : HeapAllocator S) (xs : Nodes Block) (n p : ℕ) : Type 0 where
  pub blocks : Nodes Block
  pub represents : Represents h' blocks
  pub bytes : ℕ
  pub enough : n ≤ bytes
  pub below : List (ℕ × ℕ)
  pub above : List (ℕ × ℕ)
  pub live_before : live xs ≡ below ++ above
  pub live_after : live blocks ≡ below ++ (p, bytes) ∷ above

live-carved :
    (alignment n a : ℕ) (us : Nodes Block) (c : Block) (vs : Nodes Block)
    → n ≤ c.bytes
    → (m : ℕ) × (n ≤ m)
      × (live (us ++ carved alignment n a c vs) ≡ live us ++ (a + header_size, m) ∷ live vs)
live-carved alignment n a us c vs h =
    elim (Bool-cases (leb (header_size + alignment) (c.bytes - n))) [
      | inl big ↦ (n, omega arith, rw (big, live-append))
      | inr tight ↦ (c.bytes, h, rw (tight, live-append))
    ]

live-free :
    (us : Nodes Block) (a : ℕ) (c : Block) (vs : Nodes Block)
    → c.free ≡ true
    → live (us ++ (a, c) ∷ vs) ≡ live us ++ live vs
live-free us a c vs f = rw (live-append, f)

module _ (pm : PageMapper) where
  take_lem :
      (h : HeapAllocator pm.Vm) (xs us : Nodes Block) (a : ℕ) (c : Block) (vs : Nodes Block) (n : ℕ)
      → Represents h xs
      → FirstFit n xs us a c vs
      → (h' : HeapAllocator pm.Vm) × (take_block pm h n a ≡ ok (some (a + header_size), h'))
        × Allocated h' xs n (a + header_size)
  take_lem h xs us a c vs n r f =
      let is_free : c.free ≡ true = ground (arith, f.fitting) in
      let enough : n ≤ c.bytes = ground (arith, f.fitting) in
      let (m, e, g) = take_block_lem pm h us a c vs n (rw f.split at r) is_free enough in
      let (k, le, l) = live-carved h.alignment n a us c vs enough in
      (
        after pm h us a c vs n (rw f.split at r) is_free enough m,
        e,
        record {
          blocks = us ++ carved h.alignment n a c vs;
          represents = g;
          bytes = k;
          enough = le;
          below = live us;
          above = live vs;
          live_before = rw f.split (live-free us a c vs is_free);
          live_after = l;
        },
      )

  find_lem :
      (h : HeapAllocator pm.Vm) (xs : Nodes Block) (n : ℕ)
      → Represents h xs
      → ((us : Nodes Block) × (a : ℕ) × (c : Block) × (vs : Nodes Block) × (find_free_block h n
            ≡ ok (some a))
          × FirstFit n xs us a c vs)
        ⊎ ((find_free_block h n ≡ ok none) × NoneFits n xs)
  unfolding find_free_block
  find_lem h xs n r =
      rw (← Represents-head xs r)
        (find_loop_lem (block_fuel h) h.memory n none xs (Represents-fuel xs r) r.linked)

  required : ℕ → ℕ
  required n = align_up (add64 n header_size) page_size / page_size

  required_lem :
      (n : ℕ)
      → n + header_size + page_size < u64_mod
      → (n + header_size ≤ page_size * required n)
        × (page_size * required n < n + header_size + page_size)
  unfolding required
  required_lem n small =
      let plain : add64 n header_size ≡ n + header_size = omega arith in
      elim (align_up_lem (n + header_size) page_size (omega arith) (omega arith) (omega arith)) [
        | inl r ↦ rw plain (omega (arith, r.multiple, r.above, r.near))
        | inr (big, _) ↦ absurd (omega arith)
      ]

  -- `allocate` for a rounded size
  allocate_rounded :
      (h : HeapAllocator pm.Vm) (xs : Nodes Block) (n n' : ℕ)
      → align_up n h.alignment ≡ n'
      → Represents h xs
      → h.base + page_size * h.pages + n' + header_size + page_size < u64_mod
      → ((h' : HeapAllocator pm.Vm) × (p : ℕ) × (allocate pm h n ≡ ok (some p, h'))
          × Allocated h' xs n' p)
        ⊎ ((p : Panic) × MapPanics pm p × (allocate pm h n ≡ panic p))
  unfolding allocate required
  allocate_rounded h xs n n' e r b = elim (find_lem h xs n' r) [
    | inl (us, a, c, vs, found, f) ↦
        let (h', t, g) = take_lem h xs us a c vs n' r f in
        inl (h', a + header_size, simp (e, found) t, g)
    | inr (missing, _) ↦
        let (lo, hi) = required_lem n' (omega arith) in
        elim (extend_times_lem pm (required n') h xs r (omega arith)) [
          | inr (p, c, q) ↦ inr (p, c, simp (e, missing, q))
          | inl (h', ys, q, g) ↦ elim (find_lem h' ys n' g.represents) [
            | inr (_, none_fits) ↦
                absurd (omega (arith, NoneFits-room n' ys none_fits, g.more_room))
            | inl (us, a, c, vs, found, f) ↦
                let (h'', t, k) = take_lem h' ys us a c vs n' g.represents f in
                inl (
                  h'',
                  a + header_size,
                  simp (e, missing, q, found) t,
                  record {
                    blocks = k.blocks;
                    represents = k.represents;
                    bytes = k.bytes;
                    enough = k.enough;
                    below = k.below;
                    above = k.above;
                    live_before = sym g.same_live ∙ k.live_before;
                    live_after = k.live_after;
                  },
                )
          ]
        ]
  ]

  -- In a well-formed heap that stays below 2 ^ 64 with the pages for n bytes more, `allocate n`
  -- always ends and never returns `nullptr`: it panics, as the mapping of a page does, or it returns a block that was not in use,
  -- of at least n bytes. Where it returns, the heap is well formed, and every block that was in
  -- use stays where it was with its size.
  pub allocate-Allocated :
      (h : HeapAllocator pm.Vm) (xs : Nodes Block) (n : ℕ)
      → Represents h xs
      → h.base + page_size * h.pages + n + h.alignment + header_size + page_size < u64_mod
      → ((h' : HeapAllocator pm.Vm) × (p : ℕ) × (allocate pm h n ≡ ok (some p, h'))
          × Allocated h' xs n p)
        ⊎ ((p : Panic) × MapPanics pm p × (allocate pm h n ≡ panic p))
  allocate-Allocated h xs n r b =
      elim (align_up_lem n h.alignment r.aligned (omega arith) (omega arith)) [
        | inr (big, _) ↦ absurd (omega arith)
        | inl up ↦ elim (allocate_rounded h xs n _ refl r (omega (arith, up.near))) [
          | inr e ↦ inr e
          | inl (h', p, e, g) ↦ inl (
            h',
            p,
            e,
            record {
              blocks = g.blocks;
              represents = g.represents;
              bytes = g.bytes;
              enough = omega (arith, up.above, g.enough);
              below = g.below;
              above = g.above;
              live_before = g.live_before;
              live_after = g.live_after;
            },
          )
        ]
      ]
