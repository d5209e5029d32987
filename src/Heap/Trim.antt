-- ===== src/Heap/Trim.antt =====
-- The loop at the end of `free`: pages go back while the last block is free.
use radish_os.Prelude.{
  ℕ, zero, suc, ◌≤◌, ◌≡◌, refl, sym, ◌∙◌, true, false, ◌⊎◌, inl, inr, [], ◌∷◌, ◌++◌, arith, leb,
  Bool-cases, subst,
}
use radish_os.Outcome.{ok, panic, Panic}
use radish_os.LinkedList.{last}
use radish_os.LinkedList.Nodes.{Nodes}
use radish_os.Heap.{Block, HeapAllocator, PageMapper, block_fuel, shorten, trim}
use radish_os.Heap.Layout.{live}
use radish_os.Heap.Invariant.{UnmapPanics, Represents, Represents-head, Represents-fuel}
use radish_os.Heap.Extend.{last_split, last_lem}
use radish_os.Heap.Shorten.{Shortened, shorten_split}
use radish_os.Heap.Around.{Around, around}

-- a well-formed heap in which the same blocks are in use, of no more pages
pub record Trimmed {S : Type 0} (h h' : HeapAllocator S) (xs : Nodes Block) : Type 0 where
  pub blocks : Nodes Block
  pub represents : Represents h' blocks
  pub same_live : live blocks ≡ live xs
  pub pages_le : h'.pages ≤ h.pages

Trimmed-refl :
    {S : Type 0} (h : HeapAllocator S) (xs : Nodes Block) → Represents h xs → Trimmed h h xs
Trimmed-refl h xs r = record {
  blocks = xs;
  represents = r;
  same_live = refl;
  pages_le = omega arith;
}

Trimmed-step :
    {S : Type 0} (h h' h'' : HeapAllocator S) (xs : Nodes Block) (s : Shortened h h' xs)
    → Trimmed h' h'' s.blocks
    → Trimmed h h'' xs
Trimmed-step h h' h'' xs s t = record {
  blocks = t.blocks;
  represents = t.represents;
  same_live = t.same_live ∙ s.same_live;
  pages_le = omega (arith, t.pages_le, s.one_page);
}

module _ (pm : PageMapper) where
  abbrev TrimResult : ℕ → HeapAllocator pm.Vm → Nodes Block → Type 0
  TrimResult fuel h xs =
      ((h' : HeapAllocator pm.Vm) × (trim pm fuel h ≡ ok h') × Trimmed h h' xs)
      ⊎ ((p : Panic) × UnmapPanics pm p × (trim pm fuel h ≡ panic p))

  trim-few :
      (fuel : ℕ) (h : HeapAllocator pm.Vm) → leb h.pages 1 ≡ true → trim pm (suc fuel) h ≡ ok h
  unfolding trim
  trim-few fuel h e = simp (e) refl

  module _ (fuel : ℕ) (h : HeapAllocator pm.Vm) (us : Nodes Block) (z : ℕ) (e : Block)
      (r : Represents h (us ++ (z, e) ∷ [])) (more : leb h.pages 1 ≡ false) where
    found : last (block_fuel h) h.memory h.block_list ≡ ok z
    found =
        last_lem (block_fuel h) h.memory _ us z e h.block_list refl (Represents-head _ r)
          (Represents-fuel _ r) r.linked

    spot : Around h.memory h.base us z e []
    spot = around h.memory h.base us z e [] r.tiles r.linked

    pub trim-used : e.free ≡ false → trim pm (suc fuel) h ≡ ok h
    unfolding trim
    trim-used used = simp (more, found, spot.here, used) refl

    pub trim-stop : e.free ≡ true → shorten pm h ≡ ok (false, h) → trim pm (suc fuel) h ≡ ok h
    unfolding trim
    trim-stop is_free s = simp (more, found, spot.here, is_free, s) refl

    pub trim-panic :
        (p : Panic) → e.free ≡ true → shorten pm h ≡ panic p → trim pm (suc fuel) h ≡ panic p
    unfolding trim
    trim-panic p is_free s = simp (more, found, spot.here, is_free, s) refl

    pub trim-more :
        (h' : HeapAllocator pm.Vm)
        → e.free ≡ true
        → shorten pm h ≡ ok (true, h')
        → trim pm (suc fuel) h ≡ trim pm fuel h'
    unfolding trim
    trim-more h' is_free s = simp (more, found, spot.here, is_free, s) refl

  -- one round, where the theorem holds for the fuel that is left
  trim_round :
      (fuel : ℕ)
      → ((h : HeapAllocator pm.Vm) (xs : Nodes Block)
          → Represents h xs
          → h.pages ≤ fuel
          → TrimResult fuel h xs)
      → (h : HeapAllocator pm.Vm) (us : Nodes Block) (z : ℕ) (e : Block)
      → Represents h (us ++ (z, e) ∷ [])
      → h.pages ≤ suc fuel
      → leb h.pages 1 ≡ false
      → TrimResult (suc fuel) h (us ++ (z, e) ∷ [])
  trim_round fuel later h us z e r b more = elim (Bool-cases e.free) [
    | inr used ↦ inl (h, trim-used fuel h us z e r more used, Trimmed-refl h _ r)
    | inl is_free ↦ elim (shorten_split pm h us z e r (ground arith)) [
      | inr (p, c, s) ↦ inr (p, c, trim-panic fuel h us z e r more p is_free s)
      | inl (inl s) ↦ inl (h, trim-stop fuel h us z e r more is_free s, Trimmed-refl h _ r)
      | inl (inr (h', s, k)) ↦ elim (later h' k.blocks k.represents (omega (arith, k.one_page))) [
        | inr (p, c, t) ↦ inr (p, c, trim-more fuel h us z e r more h' is_free s ∙ t)
        | inl (h'', t, l) ↦
            inl (h'', trim-more fuel h us z e r more h' is_free s ∙ t, Trimmed-step h h' h'' _ k l)
      ]
    ]
  ]

  -- In a well-formed heap, the loop at the end of `free` ends, with fuel for the number of pages: it
  -- leaves a well-formed heap in which the same blocks are in use, of no more pages;
  -- or it panics, as the unmapping of a page does.
  pub trim_lem :
      (fuel : ℕ) (h : HeapAllocator pm.Vm) (xs : Nodes Block)
      → Represents h xs
      → h.pages ≤ fuel
      → ((h' : HeapAllocator pm.Vm) × (trim pm fuel h ≡ ok h') × Trimmed h h' xs)
        ⊎ ((p : Panic) × UnmapPanics pm p × (trim pm fuel h ≡ panic p))
  trim_lem zero h xs r b = absurd (omega (arith, r.mapped))
  trim_lem (suc fuel) h [] r b = absurd (omega (arith, r.filled, r.mapped))
  trim_lem (suc fuel) h ((a, c) ∷ xs) r b =
      let (us, z, e, q) = last_split a c xs in
      elim (Bool-cases (leb h.pages 1)) [
        | inl few ↦ inl (h, trim-few fuel h few, Trimmed-refl h _ r)
        | inr more ↦
            subst (TrimResult (suc fuel) h) (sym q)
              (trim_round fuel (trim_lem fuel) h us z e (rw q at r) b more)
      ]
