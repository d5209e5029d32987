-- ===== src/ProcessHeap/Tests.antt =====
-- A process heap of two pages.
use radish_os.Prelude.{ℕ, ◌+◌, ◌-◌, ◌<◌, ◌≡◌, ◌⊎◌, true, false, arith}
use radish_os.Prelude.Int.{pos}
use radish_os.Outcome.{ok, panic, Panic}
use radish_os.Heap.{PageMapper}
use radish_os.ProcessHeap.{ProcessHeap, extend, shorten, user_heap_limit}
use radish_os.ProcessHeap.Laws.{IsValid, Moved, extend-IsValid, shorten-IsValid, shorten-wraps}

-- the state counts the pages
abbrev pages : PageMapper
pages = record {
  Vm = ℕ;
  map_new = λ page s. ok (s + 1);
  unmap = λ page s. ok (s - 1);
  map_ends = λ page s e. ground arith;
  unmap_ends = λ page s e. ground arith;
}

abbrev heap : ProcessHeap ℕ
heap = record { start = 0x400000; last_page = 0x402000; limit = user_heap_limit; vm = 2 }

heap-IsValid : IsValid heap
heap-IsValid = record { above = omega arith; below = omega arith; user = omega arith }

extend-IsValid_example :
    ((h' : ProcessHeap ℕ) × (extend pages heap (pos 3) ≡ ok (true, h'))
      × IsValid h'
      × Moved heap h' 0x405000)
    ⊎ (((user_heap_limit < 0x405000) × (extend pages heap (pos 3) ≡ ok (false, heap)))
        ⊎ ((p : Panic) × (extend pages heap (pos 3) ≡ panic p)))
extend-IsValid_example = extend-IsValid pages heap 3 heap-IsValid (omega arith)

shorten-IsValid_example :
    ((h' : ProcessHeap ℕ) × (shorten pages heap (pos 1) ≡ ok (true, h'))
      × IsValid h'
      × Moved heap h' 0x401000)
    ⊎ (((0x401000 < 0x400000) × (shorten pages heap (pos 1) ≡ ok (false, heap)))
        ⊎ ((p : Panic) × (shorten pages heap (pos 1) ≡ panic p)))
shorten-IsValid_example = shorten-IsValid pages heap 1 heap-IsValid (omega arith)

shorten-wraps_example :
    ((h' : ProcessHeap ℕ) × (shorten pages heap (pos 2000) ≡ ok (true, h'))
      × (h'.limit < h'.last_page))
    ⊎ ((p : Panic) × (shorten pages heap (pos 2000) ≡ panic p))
shorten-wraps_example = shorten-wraps pages heap 2000 heap-IsValid (omega arith) (omega arith)
