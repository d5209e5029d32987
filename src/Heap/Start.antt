-- ===== src/Heap/Start.antt =====
-- `init`, and the heap that it makes.
use radish_os.Prelude.{ℕ, ◌+◌, ◌<◌, ◌≡◌, refl, true, ◌⊎◌, inl, inr, none, some, [], ◌∷◌, arith}
use radish_os.Prelude.Words.{u64_mod}
use radish_os.Outcome.{ok, panic, Panic, ends_cases}
use radish_os.Bytes.{page_size}
use radish_os.LinkedList.{Memory, write, write_self, set_base}
use radish_os.LinkedList.Nodes.{Nodes, header}
use radish_os.Heap.{Block, HeapAllocator, PageMapper, header_size, init}
use radish_os.Heap.Layout.{block, live}
use radish_os.Heap.Invariant.{Represents}

-- the heap right after `init`: one page, one free block
abbrev pub fresh : {S : Type 0} → Memory Block → S → ℕ → ℕ → HeapAllocator S
fresh m vm base alignment = record {
  base = base;
  alignment = alignment;
  pages = 1;
  block_list = some base;
  curr_block = none;
  memory = write m base (header none none (block 4064 true));
  vm = vm;
}

pub fresh-Represents :
    {S : Type 0} (m : Memory Block) (vm : S) (base alignment : ℕ)
    → base + page_size < u64_mod
    → 0 < alignment
    → header_size + alignment < u64_mod
    → Represents (fresh m vm base alignment) ((base, block 4064 true) ∷ [])
unfolding write
fresh-Represents m vm base alignment b pos small = record {
  listed = refl;
  linked = (ground arith, tt);
  tiles = (refl, tt);
  filled = omega arith;
  merged = (refl, tt);
  mapped = omega arith;
  bounded = omega arith;
  aligned = pos;
  small_alignment = small;
}

module _ (pm : PageMapper) where
  -- For a base a page below 2 ^ 64 and an alignment above 0 and 32 below 2 ^ 64, `init` panics or
  -- gives a well-formed heap in which no block is in use.
  pub init-empty :
      (self : HeapAllocator pm.Vm) (base alignment : ℕ)
      → base + page_size < u64_mod
      → 0 < alignment
      → header_size + alignment < u64_mod
      → ((h : HeapAllocator pm.Vm) × (blocks : Nodes Block) × (init pm self base alignment ≡ ok h)
          × Represents h blocks
          × (live blocks ≡ []))
        ⊎ ((p : Panic) × (init pm self base alignment ≡ panic p))
  unfolding init set_base
  init-empty self base alignment b pos small =
      elim (ends_cases (pm.map_new base self.vm) (pm.map_ends base self.vm)) [
        | inr (p, e) ↦ inr (p, rw e)
        | inl (vm, e) ↦ inl (
          fresh (set_base self.memory base).1 vm base alignment,
          (base, block 4064 true) ∷ [],
          simp (e, write_self) refl,
          fresh-Represents _ vm base alignment b pos small,
          refl,
        )
      ]
