-- ===== src/Heap/Merge.antt =====
-- The merges in `free`: a free block swallows the free block behind it.
use radish_os.Prelude.{
  ℕ, ◌+◌, ◌<◌, ◌≡◌, refl, ◌∙◌, Bool, true, false, none, some, [], ◌∷◌, arith, subst,
}
use radish_os.Prelude.Words.{u64_mod, add64}
use radish_os.LinkedList.{
  LinkedListHeader, Memory, write, write_self, write_ne, set_prev?, set_next, set_rest,
}
use radish_os.LinkedList.Nodes.{Nodes, header, head_or, last_or, Linked}
use radish_os.Heap.{Block, header_size, merge_next, merge_prev}
use radish_os.Heap.Layout.{
  block, Tiles, Linked-write, Linked-set_prev?, set_prev?-below, Linked-set_prev?_below,
}
use radish_os.Heap.Around.{Around, front-write}

-- the memory after the block at `a` swallowed the one behind it, before `ws`
abbrev pub swallowed : Memory Block → ℕ → ℕ → Nodes Block → Memory Block
swallowed m a n ws =
    set_prev? (set_next (set_rest m a (block n true)) a (head_or ws none)) (head_or ws none)
      (some a)

module _ {m : Memory Block} {lo : ℕ} {us : Nodes Block} {a : ℕ} {c : Block} {b : ℕ} {d : Block}
    {ws : Nodes Block} (r : Around m lo us a c ((b, d) ∷ ws)) where
  abbrev sum : ℕ
  sum = c.bytes + (header_size + d.bytes)

  behind : b ≡ a + header_size + c.bytes
  behind = r.tiles_back.0

  cut : Memory Block
  cut = set_next (set_rest m a (block sum true)) a (head_or ws none)

  Tiles-after : Tiles (a + header_size + sum) ws
  Tiles-after = subst (λ e. Tiles e ws) (omega arith) r.tiles_back.1

  cut-at : cut a ≡ header (head_or ws none) (last_or us none) (block sum true)
  unfolding cut
  cut-at = unfold write in ground (arith, r.here)

  cut-front : Linked cut none us (some a)
  unfolding cut
  cut-front = front-write r a _ _ (omega arith) (front-write r a _ m (omega arith) r.front)

  cut-back : Linked cut (some b) ws none
  unfolding cut
  cut-back =
      Linked-write _ a (some b) none (b + header_size + d.bytes) ws _ (rw behind r.tiles_back.1)
        (λ above below. omega (arith, behind))
        (Linked-write m a (some b) none (b + header_size + d.bytes) ws _ (rw behind r.tiles_back.1)
          (λ above below. omega (arith, behind)) r.back.1)

  pub Around-swallow : Around (swallowed m a sum ws) lo us a (block sum true) ws
  unfolding cut
  Around-swallow = record {
    tiles_front = r.tiles_front;
    at = r.at;
    tiles_back = Tiles-after;
    front =
        Linked-set_prev?_below cut none (some a) (some a) lo (a + header_size + sum) us ws
          r.tiles_front Tiles-after (omega (arith, r.at)) cut-front;
    here =
        set_prev?-below a (a + header_size + sum) ws (some a) cut Tiles-after (omega arith)
        ∙ cut-at;
    back = Linked-set_prev? cut (some b) (some a) (a + header_size + sum) ws Tiles-after cut-back;
  }

  bytes_behind :
      (b + header_size + d.bytes < u64_mod) → add64 c.bytes (add64 header_size d.bytes) ≡ sum
  bytes_behind small = omega (arith, behind)

  other : (k : Memory Block) (x : LinkedListHeader Block) → write k a x b ≡ k b
  other k x = write_ne k a b x (omega (arith, behind))

  flags : (n : ℕ) (f : Bool) → f ≡ true → block n f ≡ block n true
  flags n f e = rw e

  -- `hdr` swallows a free block behind it
  pub merge_next-free :
      b + header_size + d.bytes < u64_mod
      → c.free ≡ true
      → d.free ≡ true
      → merge_next m a ≡ swallowed m a sum ws
  unfolding merge_next
  merge_next-free small f g =
      let plain : add64 c.bytes (add64 header_size d.bytes) ≡ sum = bytes_behind small in
      simp (r.here, r.back.0, g, plain, other, write_self, flags sum c.free f) refl

  pub merge_next-used : d.free ≡ false → merge_next m a ≡ m
  unfolding merge_next
  merge_next-used g = simp (r.here, r.back.0, g) refl

  -- seen from the block behind: its predecessor swallows it
  pub merge_prev-free :
      b + header_size + d.bytes < u64_mod → c.free ≡ true → merge_prev m b ≡ swallowed m a sum ws
  unfolding merge_prev
  merge_prev-free small f =
      let plain : add64 c.bytes (add64 header_size d.bytes) ≡ sum = bytes_behind small in
      simp (r.here, r.back.0, f, plain, other, write_self, flags sum c.free f) refl

  pub merge_prev-used : c.free ≡ false → merge_prev m b ≡ m
  unfolding merge_prev
  merge_prev-used g = simp (r.here, r.back.0, g) refl

-- nothing stands behind, or nothing before
pub merge_next-last :
    {m : Memory Block} {lo : ℕ} {us : Nodes Block} {a : ℕ} {c : Block}
    → Around m lo us a c []
    → merge_next m a ≡ m
unfolding merge_next
merge_next-last r = simp (r.here) refl

pub merge_prev-first :
    {m : Memory Block} {lo : ℕ} {a : ℕ} {c : Block} {vs : Nodes Block}
    → Around m lo [] a c vs
    → merge_prev m a ≡ m
unfolding merge_prev
merge_prev-first r = simp (r.here) refl
