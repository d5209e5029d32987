-- ===== src/Heap/Grow.antt =====
-- `extend`, once and several times: pages behind the last block, or a panic.
use radish_os.Prelude.{
  ℕ, zero, suc, ◌+◌, ◌*◌, ◌≤◌, ◌<◌, ◌≡◌, refl, ◌∙◌, ◌⊎◌, inl, inr, [], ◌∷◌, arith,
}
use radish_os.Prelude.Words.{u64_mod, add64}
use radish_os.Outcome.{ok, panic, Panic, ends_cases}
use radish_os.Bytes.{page_size}
use radish_os.LinkedList.Nodes.{Nodes}
use radish_os.Heap.{Block, HeapAllocator, PageMapper, header_size, extend, extend_times}
use radish_os.Heap.Layout.{live}
use radish_os.Heap.Invariant.{MapPanics, Represents}
use radish_os.Heap.Search.{NoneFits}
use radish_os.Heap.Extend.{room, last_split, Grown}
use radish_os.Heap.Extend.Step.{extend_maps}

-- What holds after n pages more.
pub record GrownBy {S : Type 0} (n : ℕ) (h h' : HeapAllocator S) (xs ys : Nodes Block)
    : Type 0 where
  pub represents : Represents h' ys
  pub same_live : live ys ≡ live xs
  pub more_room : room xs + page_size * n ≤ room ys
  pub more_pages : h'.pages ≡ h.pages + n
  pub same_base : h'.base ≡ h.base
  pub same_alignment : h'.alignment ≡ h.alignment

module _ (pm : PageMapper) where
  abbrev new_page : HeapAllocator pm.Vm → ℕ
  new_page h = h.base + page_size * h.pages

  extend-panic :
      (h : HeapAllocator pm.Vm) (p : Panic)
      → h.base + page_size * h.pages < u64_mod
      → pm.map_new (new_page h) h.vm ≡ panic p
      → extend pm h ≡ panic p
  unfolding extend
  extend-panic h p small e =
      let plain : add64 h.base (page_size * h.pages) ≡ new_page h = omega arith in simp (plain, e)

  -- `extend` adds a page, or panics where no page can be mapped.
  extend_lem :
      (h : HeapAllocator pm.Vm) (xs : Nodes Block)
      → Represents h xs
      → h.base + page_size * (h.pages + 1) < u64_mod
      → ((h' : HeapAllocator pm.Vm) × (ys : Nodes Block) × (extend pm h ≡ ok h') × Grown h h' xs ys)
        ⊎ ((p : Panic) × MapPanics pm p × (extend pm h ≡ panic p))
  extend_lem h [] r b = absurd (omega (arith, r.filled, r.mapped))
  extend_lem h ((a, c) ∷ xs) r b =
      elim (ends_cases (pm.map_new (new_page h) h.vm) (pm.map_ends (new_page h) h.vm)) [
        | inr (p, e) ↦ inr (p, (new_page h, h.vm, e), extend-panic h p r.bounded e)
        | inl (vm, e) ↦
            let (us, z, d, q) = last_split a c xs in
            inl (rw q (extend_maps pm h us z d (rw q at r) vm b e))
      ]

  pub extend_times_lem :
      (n : ℕ) (h : HeapAllocator pm.Vm) (xs : Nodes Block)
      → Represents h xs
      → h.base + page_size * (h.pages + n) < u64_mod
      → ((h' : HeapAllocator pm.Vm) × (ys : Nodes Block) × (extend_times pm n h ≡ ok h')
          × GrownBy n h h' xs ys)
        ⊎ ((p : Panic) × MapPanics pm p × (extend_times pm n h ≡ panic p))
  unfolding extend_times
  extend_times_lem zero h xs r b = inl (
    h,
    xs,
    refl,
    record {
      represents = r;
      same_live = refl;
      more_room = omega arith;
      more_pages = omega arith;
      same_base = refl;
      same_alignment = refl;
    },
  )
  extend_times_lem (suc n) h xs r b = elim (extend_lem h xs r (omega arith)) [
    | inr (p, c, e) ↦ inr (p, c, rw e)
    | inl (h', ys, e, g) ↦
        elim (extend_times_lem n h' ys g.represents (rw (g.same_base, g.one_page) (omega arith))) [
          | inr (p, c, e') ↦ inr (p, c, rw e e')
          | inl (h'', zs, e', g') ↦ inl (
            h'',
            zs,
            rw e e',
            record {
              represents = g'.represents;
              same_live = g'.same_live ∙ g.same_live;
              more_room = omega (arith, g.more_room, g'.more_room);
              more_pages = omega (arith, g.one_page, g'.more_pages);
              same_base = g'.same_base ∙ g.same_base;
              same_alignment = g'.same_alignment ∙ g.same_alignment;
            },
          )
        ]
  ]

-- where nothing fits, the last block does not either
pub NoneFits-room : (n : ℕ) (xs : Nodes Block) → NoneFits n xs → room xs < n + header_size
NoneFits-room n [] h = omega arith
NoneFits-room n ((a, b) ∷ []) h = ground arith
NoneFits-room n ((a, b) ∷ y ∷ ys) h = NoneFits-room n (y ∷ ys) h.1
