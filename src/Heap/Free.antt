-- ===== src/Heap/Free.antt =====
-- `free` as its clients see it.
use radish_os.Prelude.{
  ℕ, ◌+◌, ◌≤◌, ◌<◌, ◌≡◌, refl, sym, ap, ◌∙◌, true, false, ◌⊎◌, inl, inr, List, [], ◌∷◌, ◌++◌, arith,
  Bool-cases,
}
use radish_os.Prelude.Words.{u64_mod, sub64}
use radish_os.Outcome.{ok, panic, Panic, double_free}
use radish_os.LinkedList.{Memory, set_rest}
use radish_os.LinkedList.Nodes.{Nodes}
use radish_os.Heap.{
  Block, HeapAllocator, PageMapper, header_size, trim, free, merge_next, merge_prev,
}
use radish_os.Heap.Layout.{block, end_of, Merged-split, live}
use radish_os.Heap.Invariant.{UnmapPanics, Represents}
use radish_os.Heap.Around.{Around, around, Around-le, Around-end}
use radish_os.Heap.Carve.{Around-mark}
use radish_os.Heap.Neighbours.{merge_next_lem, merge_prev_lem}
use radish_os.Heap.Trim.{trim_lem}

-- where a block in use comes from
record InUse (xs : Nodes Block) (below above : List (ℕ × ℕ)) (p n : ℕ) : Type 0 where
  us : Nodes Block
  a : ℕ
  c : Block
  vs : Nodes Block
  split : xs ≡ us ++ (a, c) ∷ vs
  used : c.free ≡ false
  at : p ≡ a + header_size
  live_front : live us ≡ below
  live_back : live vs ≡ above

in_use :
    (xs : Nodes Block) (below above : List (ℕ × ℕ)) (p n : ℕ)
    → live xs ≡ below ++ (p, n) ∷ above
    → InUse xs below above p n
in_use [] [] above p n e = absurd cc
in_use [] (y ∷ below) above p n e = absurd cc
in_use ((a, b) ∷ xs) below above p n e = elim (Bool-cases b.free) [
  | inl is_free ↦
      let i = in_use xs below above p n (rw is_free at e) in
      record {
        us = (a, b) ∷ i.us;
        a = i.a;
        c = i.c;
        vs = i.vs;
        split = ap (λ (ys : Nodes Block). (a, b) ∷ ys) i.split;
        used = i.used;
        at = i.at;
        live_front = rw is_free i.live_front;
        live_back = i.live_back;
      }
  | inr used ↦ behind below used (rw used at e) (λ zs q. in_use xs zs above p n q)
]
  where
    behind :
        (below : List (ℕ × ℕ))
        → b.free ≡ false
        → (a + header_size, b.bytes) ∷ live xs ≡ below ++ (p, n) ∷ above
        → ((zs : List (ℕ × ℕ)) → live xs ≡ zs ++ (p, n) ∷ above → InUse xs zs above p n)
        → InUse ((a, b) ∷ xs) below above p n
    behind [] used e k = record {
      us = [];
      a = a;
      c = b;
      vs = xs;
      split = refl;
      used = used;
      at = cc;
      live_front = refl;
      live_back = cc;
    }
    behind (y ∷ below) used e k =
        let i = k below cc in
        record {
          us = (a, b) ∷ i.us;
          a = i.a;
          c = i.c;
          vs = i.vs;
          split = ap (λ (ys : Nodes Block). (a, b) ∷ ys) i.split;
          used = i.used;
          at = i.at;
          live_front = rw used (let f = i.live_front in cc);
          live_back = i.live_back;
        }

module _ (pm : PageMapper) (h : HeapAllocator pm.Vm) (us : Nodes Block) (a : ℕ) (c : Block)
    (vs : Nodes Block) (r : Represents h (us ++ (a, c) ∷ vs)) where
  spot : Around h.memory h.base us a c vs
  spot = around h.memory h.base us a c vs r.tiles r.linked

  inside : a + header_size + c.bytes < u64_mod
  inside = omega (arith, Around-le spot, r.filled, r.bounded)

  plain : sub64 (a + header_size) header_size ≡ a
  plain = omega (arith, inside)

  abbrev marked : Memory Block
  marked = set_rest h.memory a (record (h.memory a).rest { free = true })

  abbrev merged_memory : Memory Block
  merged_memory = merge_prev (merge_next marked a) a

  free-merges :
      c.free ≡ false
      → free pm h (a + header_size) ≡ trim pm h.pages (record h { memory = merged_memory })
  unfolding free
  free-merges used = simp (plain, spot.here, used) refl

  free-twice : c.free ≡ true → free pm h (a + header_size) ≡ panic double_free
  unfolding free
  free-twice is_free = simp (plain, spot.here, is_free) refl

  -- before the trim, the heap is well formed again
  merged_lem :
      (blocks : Nodes Block) × Represents (record h { memory = merged_memory }) blocks
      × (live blocks ≡ live us ++ live vs)
  merged_lem =
      let s : Around marked h.base us a (block c.bytes true) vs =
        Around-mark spot true _ (rw spot.here refl) in
      let (front, back) = Merged-split false us ((a, c) ∷ vs) r.merged in
      let small : end_of (a + header_size + c.bytes) vs < u64_mod =
        omega (arith, Around-end spot, r.filled, r.bounded) in
      let n = merge_next_lem marked h.base us a c.bytes vs c.free s small back.1 in
      let p =
        merge_prev_lem (merge_next marked a) h.base a n.bytes n.ws (omega (arith, n.same_end))
          n.merged us n.spot front in
      (
        p.blocks,
        record {
          listed = r.listed;
          linked = p.linked;
          tiles = p.tiles;
          filled = p.same_end ∙ (n.same_end ∙ (sym (Around-end spot) ∙ r.filled));
          merged = p.merged;
          mapped = r.mapped;
          bounded = r.bounded;
          aligned = r.aligned;
          small_alignment = r.small_alignment;
        },
        p.same_live ∙ ap (λ (l : List (ℕ × ℕ)). live us ++ l) n.same_live,
      )

-- `h'` has one block less in use than `xs` has: those in `left` are in use, where they were.
pub record Freed {S : Type 0} (h h' : HeapAllocator S) (left : List (ℕ × ℕ)) : Type 0 where
  pub blocks : Nodes Block
  pub represents : Represents h' blocks
  pub live_after : live blocks ≡ left
  pub pages_le : h'.pages ≤ h.pages

module _ (pm : PageMapper) where
  -- In a well-formed heap, `free p` of a block in use ends: it gives back a well-formed heap in
  -- which exactly that block is no longer in use and all others stay where they were, with no
  -- more pages than before; or it panics, as the unmapping of a page does.
  pub free-Freed :
      (h : HeapAllocator pm.Vm) (xs : Nodes Block) (below above : List (ℕ × ℕ)) (p n : ℕ)
      → Represents h xs
      → live xs ≡ below ++ (p, n) ∷ above
      → ((h' : HeapAllocator pm.Vm) × (free pm h p ≡ ok h') × Freed h h' (below ++ above))
        ⊎ ((q : Panic) × UnmapPanics pm q × (free pm h p ≡ panic q))
  free-Freed h xs below above p n r e =
      let i = in_use xs below above p n e in
      let r' : Represents h (i.us ++ (i.a, i.c) ∷ i.vs) = rw i.split at r in
      let (blocks, s, l) = merged_lem pm h i.us i.a i.c i.vs r' in
      let step : free pm h p ≡ trim pm h.pages _ =
        ap (free pm h) i.at ∙ free-merges pm h i.us i.a i.c i.vs r' i.used in
      elim (trim_lem pm h.pages _ blocks s (omega arith)) [
        | inr (q, c, t) ↦ inr (q, c, step ∙ t)
        | inl (h', t, k) ↦ inl (
          h',
          step ∙ t,
          record {
            blocks = k.blocks;
            represents = k.represents;
            live_after = k.same_live ∙ (l ∙ rw (i.live_front, i.live_back));
            pages_le = k.pages_le;
          },
        )
      ]

  -- In a well-formed heap, freeing what a free block's header describes panics.
  pub free-double :
      (h : HeapAllocator pm.Vm) (us : Nodes Block) (a : ℕ) (c : Block) (vs : Nodes Block)
      → Represents h (us ++ (a, c) ∷ vs)
      → c.free ≡ true
      → free pm h (a + header_size) ≡ panic double_free
  free-double h us a c vs r is_free = free-twice pm h us a c vs r is_free
