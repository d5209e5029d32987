-- ===== src/Heap/Shorten.antt =====
-- `shorten`: the last page goes back where no block in use reaches it.
use radish_os.Prelude.{
  ℕ, zero, suc, ◌+◌, ◌-◌, ◌*◌, ◌≤◌, ◌<◌, ◌≡◌, refl, sym, ◌∙◌, Bool, true, false, not, ◌&&◌, ◌⊎◌,
  inl, inr, Option, none, some, [], ◌∷◌, ◌++◌, arith, leb, Bool-cases, length,
}
use radish_os.Prelude.Words.{u64_mod, add64, sub64}
use radish_os.Outcome.{ok, panic, Panic, ends_cases}
use radish_os.Bytes.{page_size}
use radish_os.LinkedList.{Memory, write, set_next, set_rest, first, last}
use radish_os.LinkedList.Nodes.{Nodes, head_or, Linked}
use radish_os.Heap.{
  Block, HeapAllocator, PageMapper, header_size, block_fuel, reaches_loop, shorten, shorten_last,
  drop_last, drop_page,
}
use radish_os.Heap.Layout.{
  block, Tiles, end_of, end_of-le, Merged, Merged-append, Merged-split, live,
}
use radish_os.Heap.Around.{Around, around, front-write, Around-Linked, Around-Tiles, Around-end}
use radish_os.Heap.Invariant.{UnmapPanics, Represents, Represents-head, Represents-fuel}
use radish_os.Heap.Neighbours.{live-last_free}
use radish_os.Heap.Extend.{last_lem}

-- every block in use ends below the last page
abbrev Below : ℕ → Nodes Block → Type 0
Below last_page [] = Unit
Below last_page ((a, b) ∷ xs) =
    (b.free ≡ false → a + header_size + b.bytes < last_page) × Below last_page xs

reaches_loop_lem :
    (fuel : ℕ) (m : Memory Block) (last_page lo : ℕ) (start : Option ℕ) (xs : Nodes Block)
    → length xs < fuel
    → Linked m start xs none
    → Tiles lo xs
    → end_of lo xs < u64_mod
    → (reaches_loop fuel m last_page (head_or xs none) ≡ ok true)
      ⊎ ((reaches_loop fuel m last_page (head_or xs none) ≡ ok false) × Below last_page xs)
unfolding reaches_loop
reaches_loop_lem zero m lp lo start xs h l t s = absurd (omega arith)
reaches_loop_lem (suc fuel) m lp lo start [] h l t s = inr (refl, tt)
reaches_loop_lem (suc fuel) m lp lo start ((a, b) ∷ xs) h l t s =
    let next_end : ℕ = a + header_size + b.bytes in
    let plain : add64 (add64 a header_size) b.bytes ≡ next_end =
      omega (arith, t.0, end_of-le (lo + header_size + b.bytes) xs) in
    elim (Bool-cases (not b.free && leb lp next_end)) [
      | inl hit ↦ inl (simp (l.0, reaches_loop, plain, hit) refl)
      | inr miss ↦
          elim (reaches_loop_lem fuel m lp (lo + header_size + b.bytes) (some a) xs (omega arith)
            l.1 t.1 s) [
              | inl e ↦ inl (simp (l.0, reaches_loop, plain, miss) e)
              | inr (e, below) ↦ inr (
                simp (l.0, reaches_loop, plain, miss) e,
                (λ used. ground (arith, miss, used), below),
              )
            ]
    ]

-- A free last block behind them begins below the last page.
last-Below :
    (f : Bool) (last_page lo : ℕ) (us : Nodes Block) (z : ℕ) (e : Block)
    → Tiles lo (us ++ (z, e) ∷ [])
    → Merged f (us ++ (z, e) ∷ [])
    → Below last_page (us ++ (z, e) ∷ [])
    → (f ≡ false → lo < last_page)
    → e.free ≡ true
    → z < last_page
last-Below f lp lo [] z e t g b k is_free =
    let before : f ≡ false = ground (arith, g.0, is_free) in omega (arith, t.0, k before)
last-Below f lp lo ((a, b) ∷ us) z e t g below k is_free =
    last-Below b.free lp (lo + header_size + b.bytes) us z e t.1 g.1 below.1
      (λ used. omega (arith, t.0, below.0 used)) is_free

-- the memory after the last block was cut
abbrev cut_memory : Memory Block → ℕ → ℕ → Memory Block
cut_memory m z n = let cut = set_rest m z (record (m z).rest { bytes = n }) in set_next cut z none

Around-cut :
    {m : Memory Block} {lo : ℕ} {us : Nodes Block} {z : ℕ} {e : Block}
    → Around m lo us z e []
    → (n : ℕ) → e.free ≡ true
    → Around (cut_memory m z n) lo us z (block n true) []
Around-cut {m = m} {us = us} {z = z} {e = e} r n is_free = record {
  tiles_front = r.tiles_front;
  at = r.at;
  tiles_back = tt;
  front = front-write r z _ _ (omega arith) (front-write r z _ m (omega arith) r.front);
  here = unfold write in ground (arith, r.here, is_free);
  back = tt;
}

-- what one page less leaves as it was
pub record Shortened {S : Type 0} (h h' : HeapAllocator S) (xs : Nodes Block) : Type 0 where
  pub blocks : Nodes Block
  pub represents : Represents h' blocks
  pub same_live : live blocks ≡ live xs
  pub one_page : h.pages ≡ h'.pages + 1

module _ (pm : PageMapper) (h : HeapAllocator pm.Vm) (us : Nodes Block) (z : ℕ) (e : Block)
    (r : Represents h (us ++ (z, e) ∷ [])) (more : 1 < h.pages) where
  abbrev last_page : ℕ
  last_page = h.base + page_size * (h.pages - 1)

  spot : Around h.memory h.base us z e []
  spot = around h.memory h.base us z e [] r.tiles r.linked

  inside : z + header_size + e.bytes ≡ h.base + page_size * h.pages
  inside = sym (Around-end spot) ∙ r.filled

  found : last (block_fuel h) h.memory h.block_list ≡ ok z
  found =
      last_lem (block_fuel h) h.memory _ us z e h.block_list refl (Represents-head _ r)
        (Represents-fuel _ r) r.linked

  -- the block is cut at the last page
  abbrev shorter : HeapAllocator pm.Vm
  shorter = record h { memory = cut_memory h.memory z (last_page - (z + header_size)) }

  drop_last-none :
      z < last_page → leb (z + header_size) last_page ≡ false → drop_last pm h last_page z ≡ none
  unfolding drop_last
  drop_last-none below e =
      let plain : add64 z header_size ≡ z + header_size = omega (arith, inside, r.bounded) in
      let b : leb last_page z ≡ false = ground arith in simp (plain, b, e) refl

  drop_last-some :
      z < last_page
      → leb (z + header_size) last_page ≡ true
      → drop_last pm h last_page z ≡ some shorter
  unfolding drop_last
  drop_last-some below e =
      let plain : add64 z header_size ≡ z + header_size = omega (arith, inside, r.bounded) in
      let cut : sub64 last_page (z + header_size) ≡ last_page - (z + header_size) =
        ground (arith, r.bounded) in
      let b : leb last_page z ≡ false = ground arith in simp (plain, cut, b, e) refl

  shorter-Represents :
      (vm : pm.Vm)
      → z + header_size ≤ last_page
      → e.free ≡ true
      → Shortened h (record shorter { vm = vm; pages = sub64 h.pages 1 }) (us ++ (z, e) ∷ [])
  shorter-Represents vm fits is_free =
      let n : ℕ = last_page - (z + header_size) in
      let s : Around shorter.memory h.base us z (block n true) [] = Around-cut spot n is_free in
      let fewer : sub64 h.pages 1 ≡ h.pages - 1 = omega (arith, r.bounded) in
      record {
        blocks = us ++ (z, block n true) ∷ [];
        represents = record {
          listed = r.listed;
          linked = Around-Linked s;
          tiles = Around-Tiles s;
          filled = rw fewer (Around-end s ∙ omega arith);
          merged =
              let (p, q) = Merged-split false us ((z, e) ∷ []) r.merged in
              Merged-append false us _ p (rw is_free at q);
          mapped = rw fewer (omega arith);
          bounded = rw fewer (omega (arith, r.bounded));
          aligned = r.aligned;
          small_alignment = r.small_alignment;
        };
        same_live = live-last_free us z (block n true) refl ∙ sym (live-last_free us z e is_free);
        one_page = rw fewer (omega arith);
      }

  abbrev Result : Type 0
  Result =
      ((shorten pm h ≡ ok (false, h))
        ⊎ ((h' : HeapAllocator pm.Vm) × (shorten pm h ≡ ok (true, h'))
            × Shortened h h' (us ++ (z, e) ∷ [])))
      ⊎ ((p : Panic) × UnmapPanics pm p × (shorten pm h ≡ panic p))

  plain_page : add64 h.base (page_size * sub64 h.pages 1) ≡ last_page
  plain_page =
      let fewer : sub64 h.pages 1 ≡ h.pages - 1 = omega (arith, r.bounded) in
      rw fewer (omega (arith, r.bounded))

  one : leb h.pages 1 ≡ false
  one = ground arith

  -- `shorten` is `shorten_last` where nothing in use reaches the last page
  shorten-last :
      reaches_loop (block_fuel h) h.memory last_page (first h.block_list) ≡ ok false
      → shorten pm h ≡ shorten_last pm h last_page
  unfolding shorten
  shorten-last q = simp (one, plain_page, q) refl

  shorten-reached :
      reaches_loop (block_fuel h) h.memory last_page (first h.block_list) ≡ ok true
      → shorten pm h ≡ ok (false, h)
  unfolding shorten
  shorten-reached q = simp (one, plain_page, q) refl

  shorten_last-used : e.free ≡ false → shorten_last pm h last_page ≡ ok (false, h)
  unfolding shorten_last
  shorten_last-used used = simp (found, spot.here, used) refl

  shorten_last-none :
      e.free ≡ true
      → drop_last pm h last_page z ≡ none
      → shorten_last pm h last_page ≡ ok (false, h)
  unfolding shorten_last drop_page
  shorten_last-none is_free q = simp (found, spot.here, is_free, q) refl

  shorten_last-ok :
      e.free ≡ true
      → drop_last pm h last_page z ≡ some shorter
      → (vm : pm.Vm) → pm.unmap last_page h.vm ≡ ok vm
      → shorten_last pm h last_page ≡ ok (true, record shorter { vm = vm; pages = sub64 h.pages 1 })
  unfolding shorten_last drop_page
  shorten_last-ok is_free q vm u = simp (found, spot.here, is_free, q, u) refl

  shorten_last-panic :
      e.free ≡ true
      → drop_last pm h last_page z ≡ some shorter
      → (p : Panic) → pm.unmap last_page h.vm ≡ panic p
      → shorten_last pm h last_page ≡ panic p
  unfolding shorten_last drop_page
  shorten_last-panic is_free q p u = simp (found, spot.here, is_free, q, u) refl

  begins-Below : Below last_page (us ++ (z, e) ∷ []) → e.free ≡ true → z < last_page
  begins-Below b is_free =
      last-Below false last_page h.base us z e r.tiles r.merged b (λ k. omega arith) is_free

  -- `shorten` with a free last block that nothing in use follows
  shorten_free :
      reaches_loop (block_fuel h) h.memory last_page (first h.block_list) ≡ ok false
      → Below last_page (us ++ (z, e) ∷ [])
      → e.free ≡ true
      → Result
  shorten_free q b is_free =
      let lt : z < last_page = begins-Below b is_free in
      elim (Bool-cases (leb (z + header_size) last_page)) [
        | inr outside ↦
            inl (inl (shorten-last q ∙ shorten_last-none is_free (drop_last-none lt outside)))
        | inl fits ↦ elim (ends_cases (pm.unmap last_page h.vm) (pm.unmap_ends last_page h.vm)) [
          | inr (p, u) ↦ inr (
            p,
            (last_page, h.vm, u),
            shorten-last q ∙ shorten_last-panic is_free (drop_last-some lt fits) p u,
          )
          | inl (vm, u) ↦ inl (
              inr (
                _,
                shorten-last q ∙ shorten_last-ok is_free (drop_last-some lt fits) vm u,
                shorter-Represents vm (ground arith) is_free,
              ))
        ]
      ]

  pub shorten_split : Result
  shorten_split =
      elim (reaches_loop_lem (block_fuel h) h.memory last_page h.base none (us ++ (z, e) ∷ [])
        (Represents-fuel _ r) r.linked r.tiles (rw r.filled r.bounded)) [
          | inl q ↦ inl (inl (shorten-reached (rw (Represents-head _ r) at q)))
          | inr (q, b) ↦
              let q' : reaches_loop (block_fuel h) h.memory last_page (first h.block_list)
                  ≡ ok false =
                rw (Represents-head _ r) at q in
              elim (Bool-cases e.free) [
                | inr used ↦ inl (inl (shorten-last q' ∙ shorten_last-used used))
                | inl is_free ↦ shorten_free q' b is_free
              ]
        ]
