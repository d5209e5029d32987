-- ===== src/Heap/Invariant.antt =====
-- The invariant of the heap: its pages are tiled by a linked list of blocks, with free neighbours
-- merged.
use radish_os.Prelude.{ℕ, ◌+◌, ◌*◌, ◌<◌, ◌≡◌, false, none, some, [], ◌∷◌, arith, length}
use radish_os.Prelude.Words.{u64_mod}
use radish_os.Outcome.{Panic, panic}
use radish_os.Bytes.{page_size}
use radish_os.LinkedList.Nodes.{Nodes, head_or, Linked}
use radish_os.Heap.{Block, HeapAllocator, PageMapper, header_size, block_fuel}
use radish_os.Heap.Layout.{Tiles, end_of, end_of-le, Merged}

-- a page that cannot be mapped, or unmapped, is what `p` comes from
abbrev pub MapPanics : PageMapper → Panic → Type 0
MapPanics pm p = (page : ℕ) × (s : pm.Vm) × (pm.map_new page s ≡ panic p)

abbrev pub UnmapPanics : PageMapper → Panic → Type 0
UnmapPanics pm p = (page : ℕ) × (s : pm.Vm) × (pm.unmap page s ≡ panic p)

pub record Represents {S : Type 0} (h : HeapAllocator S) (xs : Nodes Block) : Type 0 where
  pub listed : h.block_list ≡ some h.base
  pub linked : Linked h.memory none xs none
  pub tiles : Tiles h.base xs
  pub filled : end_of h.base xs ≡ h.base + page_size * h.pages
  pub merged : Merged false xs
  pub mapped : 0 < h.pages
  pub bounded : h.base + page_size * h.pages < u64_mod
  pub aligned : 0 < h.alignment
  pub small_alignment : header_size + h.alignment < u64_mod

module _ {S : Type 0} {h : HeapAllocator S} where
  -- the list begins at the base
  pub Represents-head : (xs : Nodes Block) → Represents h xs → head_or xs none ≡ h.block_list
  Represents-head [] r = absurd (omega (arith, r.filled, r.mapped))
  Represents-head ((a, b) ∷ xs) r = rw (r.listed, r.tiles.0)

  -- the fuel of the walks is more than the number of blocks
  pub Represents-fuel : (xs : Nodes Block) → Represents h xs → length xs < block_fuel h
  Represents-fuel xs r = omega (arith, end_of-le h.base xs, r.filled)
