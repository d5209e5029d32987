-- ===== src/ProcessHeap/Laws.antt =====
-- The bounds of a process heap.
use radish_os.Prelude.{
  ℕ, zero, suc, ◌+◌, ◌*◌, ◌-◌, ◌≤◌, ◌<◌, ◌≡◌, refl, ◌⊎◌, inl, inr, true, false, ltb, arith,
  Bool-cases,
}
use radish_os.Prelude.Words.{add64, sub64, u64_mod}
use radish_os.Prelude.Int.{pos}
use radish_os.Outcome.{ok, panic, Panic, ends_cases}
use radish_os.Bytes.{page_size}
use radish_os.Heap.{PageMapper}
use radish_os.ProcessHeap.{
  ProcessHeap, user_heap_limit, page_bytes, map_loop, unmap_loop, extend, shorten,
}

pub record IsValid {S : Type 0} (h : ProcessHeap S) : Type 0 where
  pub above : h.start ≤ h.last_page
  pub below : h.last_page ≤ h.limit
  pub user : h.limit ≤ user_heap_limit

-- the heap `h` with another end
abbrev pub Moved : {S : Type 0} → ProcessHeap S → ProcessHeap S → ℕ → Type 0
Moved h h' end = (h'.start ≡ h.start) × (h'.limit ≡ h.limit) × (h'.last_page ≡ end)

module _ (pm : PageMapper) where
  map_loop_cases :
      (n vaddr : ℕ) (vm : pm.Vm)
      → ((vm' : pm.Vm) × (map_loop pm n vaddr vm ≡ ok vm'))
        ⊎ ((p : Panic) × (map_loop pm n vaddr vm ≡ panic p))
  unfolding map_loop
  map_loop_cases zero vaddr vm = inl (vm, refl)
  map_loop_cases (suc n) vaddr vm = elim (ends_cases (pm.map_new vaddr vm) (pm.map_ends vaddr vm)) [
    | inr (p, e) ↦ inr (p, rw e refl)
    | inl (vm', e) ↦ rw e (map_loop_cases n (add64 vaddr page_size) vm')
  ]

  unmap_loop_cases :
      (n vaddr : ℕ) (vm : pm.Vm)
      → ((vm' : pm.Vm) × (unmap_loop pm n vaddr vm ≡ ok vm'))
        ⊎ ((p : Panic) × (unmap_loop pm n vaddr vm ≡ panic p))
  unfolding unmap_loop
  unmap_loop_cases zero vaddr vm = inl (vm, refl)
  unmap_loop_cases (suc n) vaddr vm =
      elim (ends_cases (pm.unmap vaddr vm) (pm.unmap_ends vaddr vm)) [
        | inr (p, e) ↦ inr (p, rw e refl)
        | inl (vm', e) ↦ rw e (unmap_loop_cases n (sub64 vaddr page_size) vm')
      ]

  -- In a valid process heap, `extend` by n pages, n below 2 ^ 31, moves the end of the heap up by
  -- n pages where that stays within the limit, and then the heap is valid again; above the limit
  -- it returns false and changes nothing; or it panics.
  pub extend-IsValid :
      (h : ProcessHeap pm.Vm) (n : ℕ)
      → IsValid h
      → n < 2147483648
      → ((h' : ProcessHeap pm.Vm) × (extend pm h (pos n) ≡ ok (true, h'))
          × IsValid h'
          × Moved h h' (h.last_page + n * page_size))
        ⊎ (((h.limit < h.last_page + n * page_size) × (extend pm h (pos n) ≡ ok (false, h)))
            ⊎ ((p : Panic) × (extend pm h (pos n) ≡ panic p)))
  unfolding extend
  extend-IsValid h n v small =
      let plain : add64 h.last_page (page_bytes (pos n)) ≡ h.last_page + n * page_size =
        omega (arith, v.below, v.user) in
      elim (Bool-cases (ltb h.limit (h.last_page + n * page_size))) [
        | inl beyond ↦ inr (inl (ground arith, simp (plain, beyond) refl))
        | inr within ↦ elim (map_loop_cases n h.last_page h.vm) [
          | inr (p, e) ↦ inr (inr (p, simp (plain, within, e) refl))
          | inl (vm, e) ↦ inl (
            record h { last_page = h.last_page + n * page_size; vm = vm },
            simp (plain, within, e) refl,
            record { above = omega (arith, v.above); below = ground arith; user = v.user },
            (refl, refl, refl),
          )
        ]
      ]

  -- In a valid process heap, `shorten` by n pages, where as many fit below the end of the heap,
  -- moves the end down by n pages where that stays above the start, and then the heap is valid
  -- again; else it returns false and changes nothing; or it panics.
  pub shorten-IsValid :
      (h : ProcessHeap pm.Vm) (n : ℕ)
      → IsValid h
      → n * page_size ≤ h.last_page
      → ((h' : ProcessHeap pm.Vm) × (shorten pm h (pos n) ≡ ok (true, h'))
          × IsValid h'
          × Moved h h' (h.last_page - n * page_size))
        ⊎ (((h.last_page - n * page_size < h.start) × (shorten pm h (pos n) ≡ ok (false, h)))
            ⊎ ((p : Panic) × (shorten pm h (pos n) ≡ panic p)))
  unfolding shorten
  shorten-IsValid h n v fits =
      let plain : sub64 h.last_page (page_bytes (pos n)) ≡ h.last_page - n * page_size =
        omega (arith, v.below, v.user) in
      elim (Bool-cases (ltb (h.last_page - n * page_size) h.start)) [
        | inl beyond ↦ inr (inl (ground arith, simp (plain, beyond) refl))
        | inr within ↦ elim (unmap_loop_cases n (sub64 h.last_page page_size) h.vm) [
          | inr (p, e) ↦ inr (inr (p, simp (plain, within, e) refl))
          | inl (vm, e) ↦ inl (
            record h { last_page = h.last_page - n * page_size; vm = vm },
            simp (plain, within, e) refl,
            record { above = ground arith; below = omega (arith, v.below); user = v.user },
            (refl, refl, refl),
          )
        ]
      ]

  -- In a valid process heap, `shorten` by n pages, n below 2 ^ 31 and more than lie below the end
  -- of the heap, passes the test against the start: it panics, or the heap ends above its limit.
  pub shorten-wraps :
      (h : ProcessHeap pm.Vm) (n : ℕ)
      → IsValid h
      → n < 2147483648
      → h.last_page < n * page_size
      → ((h' : ProcessHeap pm.Vm) × (shorten pm h (pos n) ≡ ok (true, h'))
          × (h'.limit < h'.last_page))
        ⊎ ((p : Panic) × (shorten pm h (pos n) ≡ panic p))
  unfolding shorten
  shorten-wraps h n v small more =
      let wrapped : sub64 h.last_page (page_bytes (pos n)) ≡ h.last_page + u64_mod - n * page_size =
        omega (arith, v.below, v.user) in
      let passes : ltb (h.last_page + u64_mod - n * page_size) h.start ≡ false =
        ground (arith, v.above, v.below, v.user) in
      elim (unmap_loop_cases n (sub64 h.last_page page_size) h.vm) [
        | inr (p, e) ↦ inr (p, simp (wrapped, passes, e) refl)
        | inl (vm, e) ↦ inl (
          record h { last_page = h.last_page + u64_mod - n * page_size; vm = vm },
          simp (wrapped, passes, e) refl,
          omega (arith, v.below, v.user),
        )
      ]
