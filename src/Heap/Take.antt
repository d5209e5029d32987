-- ===== src/Heap/Take.antt =====
-- The end of `allocate`: `splitBlock`, and the mark on the block.
use radish_os.Prelude.{
  ℕ, ◌+◌, ◌-◌, ◌≤◌, ◌<◌, ◌≡◌, refl, sym, ◌∙◌, Bool, true, false, some, ◌∷◌, ◌++◌, arith, leb,
  if◌then◌else◌, Bool-cases, inl, inr, ap, ◌&&◌,
}
use radish_os.Prelude.Words.{u64_mod, add64, sub64}
use radish_os.Outcome.{ok}
use radish_os.LinkedList.{LinkedListHeader, Memory, write, write_self, write_ne}
use radish_os.LinkedList.Nodes.{Nodes}
use radish_os.Heap.{Block, HeapAllocator, PageMapper, header_size, split_block, take_block}
use radish_os.Heap.Layout.{
  block, end_of, Merged, last_free, Merged-append, Merged-split, Merged-after_used,
}
use radish_os.Heap.Around.{Around, around, Around-le, Around-Linked, Around-Tiles, Around-end}
use radish_os.Heap.Invariant.{Represents}
use radish_os.Heap.Carve.{split_memory, taken_memory, Around-split, Around-mark}

module _ {S : Type 0} (h : HeapAllocator S) {lo : ℕ} {us : Nodes Block} {a : ℕ} {c : Block}
    {vs : Nodes Block} (r : Around h.memory lo us a c vs) (n : ℕ) (enough : n ≤ c.bytes)
    (bounded : a + header_size + c.bytes < u64_mod)
    (small : header_size + h.alignment < u64_mod) where
  plain_rem : sub64 c.bytes n ≡ c.bytes - n
  plain_rem = omega arith

  plain_at : add64 (add64 a header_size) n ≡ a + header_size + n
  plain_at = omega arith

  plain_need : add64 header_size h.alignment ≡ header_size + h.alignment
  plain_need = omega arith

  split_block-yes :
      leb (header_size + h.alignment) (c.bytes - n) ≡ true
      → split_block (record h { curr_block = some a }) n
        ≡ ok (record h { curr_block = some a; memory = split_memory h.memory a c n vs })
  unfolding split_block
  split_block-yes big =
      let plain_rest : sub64 (c.bytes - n) header_size ≡ c.bytes - n - header_size = ground arith in
      let spared : (x : LinkedListHeader Block)
          → write h.memory (a + header_size + n) x a ≡ h.memory a =
        λ x. write_ne h.memory (a + header_size + n) a x (omega arith) in
      simp (r.here, plain_rem, plain_at, plain_need, big, plain_rest, spared, write_self) refl

  split_block-no :
      leb (header_size + h.alignment) (c.bytes - n) ≡ false
      → split_block (record h { curr_block = some a }) n ≡ ok (record h { curr_block = some a })
  unfolding split_block
  split_block-no small_rest = rw (r.here, plain_rem, plain_need, small_rest)

and_false : (f : Bool) → (f && false) ≡ false
and_false f = ground arith

-- the block `c` at `a` after `allocate`: in use, cut to n bytes where the rest is worth a block
abbrev pub carved : ℕ → ℕ → ℕ → Block → Nodes Block → Nodes Block
carved alignment n a c vs =
    if leb (header_size + alignment) (c.bytes - n)
    then (a, block n false) ∷ (a + header_size + n, block (c.bytes - n - header_size) true) ∷ vs
    else (a, block c.bytes false) ∷ vs

module _ (pm : PageMapper) (h : HeapAllocator pm.Vm) (us : Nodes Block) (a : ℕ) (c : Block)
    (vs : Nodes Block) (n : ℕ) (r : Represents h (us ++ (a, c) ∷ vs)) (is_free : c.free ≡ true)
    (enough : n ≤ c.bytes) where
  -- the state after, but for the memory
  abbrev pub after : Memory Block → HeapAllocator pm.Vm
  after m = record h { curr_block = some a; memory = m }

  spot : Around h.memory h.base us a c vs
  spot = around h.memory h.base us a c vs r.tiles r.linked

  inside : a + header_size + c.bytes < u64_mod
  inside = omega (arith, Around-le spot, r.filled, r.bounded)

  represents :
      (m : Memory Block) (d : Block) (ws : Nodes Block)
      → Around m h.base us a d ws
      → end_of (a + header_size + d.bytes) ws ≡ end_of (a + header_size + c.bytes) vs
      → Merged (last_free false us) ((a, d) ∷ ws)
      → Represents (after m) (us ++ (a, d) ∷ ws)
  represents m d ws s e g = record {
    listed = r.listed;
    linked = Around-Linked s;
    tiles = Around-Tiles s;
    filled = Around-end s ∙ (e ∙ (sym (Around-end spot) ∙ r.filled));
    merged =
        Merged-append false us ((a, d) ∷ ws) (Merged-split false us ((a, c) ∷ vs) r.merged).0 g;
    mapped = r.mapped;
    bounded = r.bounded;
    aligned = r.aligned;
    small_alignment = r.small_alignment;
  }

  behind : Merged c.free vs
  behind = (Merged-split false us ((a, c) ∷ vs) r.merged).1.1

  plain_result : add64 a header_size ≡ a + header_size
  plain_result = omega (arith, inside)

  -- The block is marked, the rest is cut off or kept, and the heap is well formed again.
  pub take_block_lem :
      (m : Memory Block) × (take_block pm h n a ≡ ok (some (a + header_size), after m))
      × Represents (after m) (us ++ carved h.alignment n a c vs)
  unfolding take_block
  take_block_lem = elim (Bool-cases (leb (header_size + h.alignment) (c.bytes - n))) [
    | inl big ↦ (
      taken_memory (split_memory h.memory a c n vs) a,
      simp (split_block-yes h spot n enough inside r.small_alignment big, plain_result),
      rw big (
          represents _ _ _ (Around-split spot n (ground (arith, r.aligned)))
            (ap (λ (e : ℕ). end_of e vs) (ground arith))
            (and_false (last_free false us), (refl, rw is_free at behind))),
    )
    | inr tight ↦ (
      taken_memory h.memory a,
      simp (split_block-no h spot n enough inside r.small_alignment tight, plain_result),
      rw tight (
          represents _ _ _ (Around-mark spot false _ (rw spot.here refl)) refl
            (and_false (last_free false us), Merged-after_used c.free vs behind)),
    )
  ]
