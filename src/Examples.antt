-- ===== src/Examples.antt =====
-- Concrete inputs for the theorems: small bitmaps and allocators, a memory map, a heap of one
-- page above a page mapper that always succeeds.
use radish_os.Prelude.{
  ℕ, ◌+◌, ◌*◌, ◌≤◌, ◌<◌, ◌≡◌, refl, ◌⊎◌, true, false, none, some, List, [], ◌∷◌, arith, ◌==◌,
  if◌then◌else◌,
}
use radish_os.Outcome.{ok, panic, Panic, out_of_memory, double_free}
use radish_os.Bitmap
use radish_os.Bitmap.{StaticBitmap}
use radish_os.Bitmap.Laws.{init-IsSized}
use radish_os.Allocator
use radish_os.Allocator.{StaticBitmapAllocator}
use radish_os.Allocator.Laws.{
  used, free_count, IsValid, TakesMany, Releases, allocate_exact, free-Releases,
}
use radish_os.Pmm
use radish_os.Pmm.{
  MemmapEntry, usable, reserved, frame_bytes, max_frames, max_memory, boot_allocator,
}
use radish_os.Pmm.Laws.{in_use, Granted, allocate_frame_lem}
use radish_os.Pmm.Init.{InUsable, init_lem}
use radish_os.LinkedList.{Memory}
use radish_os.LinkedList.Nodes.{Nodes, header}
use radish_os.Heap.{Block, HeapAllocator, PageMapper, header_size}
use radish_os.Heap
use radish_os.Heap.Layout.{block}
use radish_os.Heap.Invariant.{MapPanics, UnmapPanics, Represents}
use radish_os.Heap.Allocate.{Allocated, allocate-Allocated}
use radish_os.Heap.Trim.{Trimmed, trim_lem}
use radish_os.Heap.Free.{Freed, free-Freed}
use radish_os.Heap.Start.{fresh, fresh-Represents}

abbrev bits : StaticBitmap
bits = Bitmap.init 100

abbrev small : StaticBitmapAllocator
small = record { bitmap = bits; last_allocated = 98 }

small-IsValid : IsValid 100 small
small-IsValid = record { bits = init-IsSized 100; cursor = omega arith }

allocate_exact_example :
    ((3 ≤ free_count 100 small)
      × (b : StaticBitmapAllocator) × (Allocator.allocate 100 3 small ≡ ok (b.last_allocated, b))
      × TakesMany 100 3 small b)
    ⊎ ((free_count 100 small < 3) × (Allocator.allocate 100 3 small ≡ panic out_of_memory))
allocate_exact_example = allocate_exact 100 3 small small-IsValid

free-Releases_example :
    ((b : StaticBitmapAllocator) × (Allocator.free 100 7 small ≡ ok b) × Releases 100 7 small b)
    ⊎ ((used 100 small 7 ≡ false) × (Allocator.free 100 7 small ≡ panic double_free))
free-Releases_example = free-Releases 100 7 small small-IsValid

abbrev memmap : List MemmapEntry
memmap =
    record { base = 0; length = 0x9fc00; kind = reserved }
    ∷ record { base = 0x100000; length = 0x300000; kind = usable }
    ∷ []

boot-IsValid : IsValid max_frames boot_allocator
boot-IsValid = record { bits = init-IsSized max_frames; cursor = omega arith }

init_lem_example :
    (b : StaticBitmapAllocator) × (Pmm.init memmap boot_allocator ≡ ok b)
    × IsValid max_frames b
    × ((j : ℕ)
        → j < max_frames
        → ((used max_frames b j ≡ false) → InUsable memmap (j * frame_bytes))
          × (InUsable memmap (j * frame_bytes) → (used max_frames b j ≡ false)))
init_lem_example =
    init_lem memmap boot_allocator boot-IsValid
      (λ e. cc, (λ e. record { aligned = omega arith; fits = omega arith }, tt))

allocate_frame_lem_example :
    ((addr : ℕ) × (b : StaticBitmapAllocator) × (Pmm.allocate_frame boot_allocator ≡ ok (addr, b))
      × Granted boot_allocator b addr)
    ⊎ ((Pmm.allocate_frame boot_allocator ≡ panic out_of_memory)
        × ((addr : ℕ) → addr < max_memory → in_use boot_allocator addr ≡ true))
allocate_frame_lem_example = allocate_frame_lem boot_allocator boot-IsValid

-- the state counts the pages that were mapped
abbrev counting : PageMapper
counting = record {
  Vm = ℕ;
  map_new = λ page s. ok (s + 1);
  unmap = λ page s. ok s;
  map_ends = λ page s e. ground arith;
  unmap_ends = λ page s e. ground arith;
}

abbrev zeroed : Memory Block
zeroed x = header none none (block 0 false)

abbrev heap : HeapAllocator ℕ
heap = fresh zeroed 1 0x100000 16

abbrev heap_blocks : Nodes Block
heap_blocks = (0x100000, block 4064 true) ∷ []

heap-Represents : Represents heap heap_blocks
heap-Represents = fresh-Represents zeroed 1 0x100000 16 (omega arith) (omega arith) (omega arith)

allocate-Allocated_example :
    ((h' : HeapAllocator ℕ) × (p : ℕ) × (Heap.allocate counting heap 9000 ≡ ok (some p, h'))
      × Allocated h' heap_blocks 9000 p)
    ⊎ ((p : Panic) × MapPanics counting p × (Heap.allocate counting heap 9000 ≡ panic p))
allocate-Allocated_example =
    allocate-Allocated counting heap heap_blocks 9000 heap-Represents (omega arith)

-- one page and two blocks, of which the first is in use
abbrev busy : HeapAllocator ℕ
busy = record heap { memory = busy_memory }
  where
    busy_memory : Memory Block
    busy_memory x =
        if x == 0x100000
        then header (some 0x100040) none (block 32 false)
        else header none (some 0x100000) (block 4000 true)

abbrev busy_blocks : Nodes Block
busy_blocks = (0x100000, block 32 false) ∷ (0x100040, block 4000 true) ∷ []

busy-Represents : Represents busy busy_blocks
busy-Represents = record {
  listed = refl;
  linked = (refl, (refl, tt));
  tiles = (refl, (refl, tt));
  filled = refl;
  merged = (refl, (refl, tt));
  mapped = omega arith;
  bounded = omega arith;
  aligned = omega arith;
  small_alignment = omega arith;
}

free-Freed_example :
    ((h' : HeapAllocator ℕ) × (Heap.free counting busy 0x100020 ≡ ok h') × Freed busy h' [])
    ⊎ ((q : Panic) × UnmapPanics counting q × (Heap.free counting busy 0x100020 ≡ panic q))
free-Freed_example = free-Freed counting busy busy_blocks [] [] 0x100020 32 busy-Represents refl

trim_lem_example :
    ((h' : HeapAllocator ℕ) × (Heap.trim counting 1 busy ≡ ok h') × Trimmed busy h' busy_blocks)
    ⊎ ((p : Panic) × UnmapPanics counting p × (Heap.trim counting 1 busy ≡ panic p))
trim_lem_example = trim_lem counting 1 busy busy_blocks busy-Represents (omega arith)
