-- ===== src/Heap/Extend/Step.antt =====
-- `extend` keeps the invariant, the blocks in use, and adds a page of room.
use radish_os.Prelude.{
  ℕ, ◌+◌, ◌-◌, ◌*◌, ◌<◌, ◌≡◌, refl, sym, ap, ◌∙◌, true, false, ◌&&◌, inl, inr, none, [], ◌∷◌, ◌++◌,
  arith, Bool-cases,
}
use radish_os.Prelude.Words.{u64_mod, add64}
use radish_os.Outcome.{ok}
use radish_os.Bytes.{page_size}
use radish_os.LinkedList.{Memory, last, append, set_rest}
use radish_os.LinkedList.Nodes.{Nodes, Linked}
use radish_os.Heap.{Block, HeapAllocator, PageMapper, header_size, extend, block_fuel}
use radish_os.Heap.Layout.{
  block, end_of, Merged, last_free, live, live-append, Merged-append, Merged-split, Linked-write,
}
use radish_os.Heap.Around.{Around, around, Around-Linked, Around-Tiles, Around-end}
use radish_os.Heap.Invariant.{Represents, Represents-head, Represents-fuel}
use radish_os.Heap.Extend.{
  room-last, room-behind, last_lem, Grown, Around-grow, Around-append, made, joined,
}

module _ (pm : PageMapper) (h : HeapAllocator pm.Vm) (us : Nodes Block) (z : ℕ) (d : Block)
    (r : Represents h (us ++ (z, d) ∷ [])) (vm : pm.Vm)
    (fits : h.base + page_size * (h.pages + 1) < u64_mod)
    (mapped : pm.map_new (h.base + page_size * h.pages) h.vm ≡ ok vm) where
  abbrev new_page : ℕ
  new_page = h.base + page_size * h.pages

  spot : Around h.memory h.base us z d []
  spot = around h.memory h.base us z d [] r.tiles r.linked

  new_page-eq : new_page ≡ z + header_size + d.bytes
  new_page-eq = sym (sym (Around-end spot) ∙ r.filled)

  abbrev grown : Memory Block → HeapAllocator pm.Vm
  grown m = record h { memory = m; vm = vm; pages = h.pages + 1 }

  last_here : last (block_fuel (grown h.memory)) h.memory h.block_list ≡ ok z
  last_here =
      last_lem _ h.memory _ us z d h.block_list refl (Represents-head _ r)
        (omega (arith, Represents-fuel _ r)) r.linked

  extend-free :
      d.free ≡ true
      → extend pm h ≡ ok (grown (set_rest h.memory z (block (d.bytes + page_size) true)))
  unfolding extend
  extend-free f =
      let plain : add64 h.base (page_size * h.pages) ≡ new_page = omega arith in
      let sum : add64 d.bytes page_size ≡ d.bytes + page_size = omega (arith, new_page-eq) in
      simp (plain, mapped, last_here, spot.here, f, sum) refl

  abbrev linked_memory : Memory Block
  linked_memory = joined spot new_page (page_size - header_size) new_page-eq

  appended :
      append
        (block_fuel (grown h.memory))
        (made spot new_page (page_size - header_size) new_page-eq)
        h.block_list
        new_page
      ≡ ok linked_memory
  unfolding append
  appended =
      let l : Linked (made spot new_page (page_size - header_size) new_page-eq) none
          (us ++ (z, d) ∷ []) none =
        Linked-write h.memory new_page none none h.base (us ++ (z, d) ∷ []) _ r.tiles
          (λ above below. omega (arith, r.filled)) r.linked in
      rw (
        last_lem (block_fuel (grown h.memory))
          (made spot new_page (page_size - header_size) new_page-eq) (us ++ (z, d) ∷ []) us z d
          h.block_list refl (Represents-head _ r) (omega (arith, Represents-fuel _ r)) l)

  extend-used : d.free ≡ false → extend pm h ≡ ok (grown linked_memory)
  unfolding extend
  extend-used f =
      let plain : add64 h.base (page_size * h.pages) ≡ new_page = omega arith in
      simp (plain, mapped, last_here, spot.here, f, appended) refl

  behind : Merged false us × ((last_free false us && d.free) ≡ false)
  behind = let (p, q) = Merged-split false us ((z, d) ∷ []) r.merged in (p, q.0)

  -- the state after, from what the memory holds
  grown-Represents :
      (m : Memory Block) (e : Block) (ws : Nodes Block)
      → Around m h.base us z e ws
      → end_of (z + header_size + e.bytes) ws ≡ z + header_size + d.bytes + page_size
      → Merged (last_free false us) ((z, e) ∷ ws)
      → Represents (grown m) (us ++ (z, e) ∷ ws)
  grown-Represents m e ws s g k = record {
    listed = r.listed;
    linked = Around-Linked s;
    tiles = Around-Tiles s;
    filled = Around-end s ∙ (g ∙ omega (arith, new_page-eq));
    merged = Merged-append false us ((z, e) ∷ ws) behind.0 k;
    mapped = omega arith;
    bounded = fits;
    aligned = r.aligned;
    small_alignment = r.small_alignment;
  }

  pub extend_maps :
      (h' : HeapAllocator pm.Vm) × (ys : Nodes Block) × (extend pm h ≡ ok h')
      × Grown h h' (us ++ (z, d) ∷ []) ys
  extend_maps = elim (Bool-cases d.free) [
    | inl f ↦ (
      grown (set_rest h.memory z (block (d.bytes + page_size) true)),
      us ++ (z, block (d.bytes + page_size) true) ∷ [],
      extend-free f,
      record {
        represents =
            grown-Represents _ (block (d.bytes + page_size) true) []
              (Around-grow spot _ (d.bytes + page_size) (rw spot.here refl)) (omega arith)
              (rw f at behind.1, tt);
        same_live = rw (live-append, live-append) (ap (λ t. live us ++ t) (ground arith));
        more_room = rw (room-last, room-last, f) (omega arith);
        one_page = refl;
        same_base = refl;
        same_alignment = refl;
      },
    )
    | inr f ↦ (
      grown linked_memory,
      us ++ (z, d) ∷ (new_page, block (page_size - header_size) true) ∷ [],
      extend-used f,
      record {
        represents =
            grown-Represents _ d ((new_page, block (page_size - header_size) true) ∷ [])
              (Around-append spot new_page (page_size - header_size) new_page-eq)
              (omega (arith, new_page-eq)) (behind.1, (rw f, tt));
        same_live = rw (live-append, live-append);
        more_room = rw (room-behind, room-last, f) (omega arith);
        one_page = refl;
        same_base = refl;
        same_alignment = refl;
      },
    )
  ]
