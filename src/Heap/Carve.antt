-- ===== src/Heap/Carve.antt =====
-- `splitBlock` and the end of `allocate`: a free block becomes a block in use and what is left.
use radish_os.Prelude.{
  ℕ, ◌+◌, ◌-◌, ◌≤◌, ◌≡◌, refl, ◌∙◌, Bool, true, false, none, some, ◌∷◌, arith, subst,
}
use radish_os.LinkedList.{LinkedListHeader, Memory, write, set_next, set_prev?, set_rest}
use radish_os.LinkedList.Nodes.{Nodes, header, head_or, last_or}
use radish_os.Heap.{Block, header_size}
use radish_os.Heap.Layout.{block, Tiles, Linked-set_prev?}
use radish_os.Heap.Around.{Around, front-write, front-set_prev?, back-write, set_prev?-before}

-- The memory that `splitBlock` leaves, for a block `c` at `a` before `vs`, with no wrap in sight.
abbrev pub split_memory : Memory Block → ℕ → Block → ℕ → Nodes Block → Memory Block
split_memory m a c n vs =
    let bb = a + header_size + n in
    let created =
      write m bb (header (head_or vs none) (some a) (block (c.bytes - n - header_size) true)) in
    let linked = set_next (set_prev? created (head_or vs none) (some bb)) a (some bb) in
    set_rest linked a (record (linked a).rest { bytes = n })

abbrev pub taken_memory : Memory Block → ℕ → Memory Block
taken_memory m a = set_rest m a (record (m a).rest { free = false })

module _ {m : Memory Block} {lo : ℕ} {us : Nodes Block} {a : ℕ} {c : Block} {vs : Nodes Block}
    (r : Around m lo us a c vs) where
  -- the same block, marked free or in use
  pub Around-mark :
      (f : Bool) (p : LinkedListHeader Block)
      → p ≡ header (head_or vs none) (last_or us none) (block c.bytes f)
      → Around (write m a p) lo us a (block c.bytes f) vs
  unfolding write
  Around-mark f p e = record {
    tiles_front = r.tiles_front;
    at = r.at;
    tiles_back = r.tiles_back;
    front = front-write r a p m (omega arith) r.front;
    here = ground arith;
    back = back-write r a (some a) p m (omega arith) r.back;
  }

  module _ (n : ℕ) (room : n + header_size ≤ c.bytes) where
    abbrev pub rest_bytes : ℕ
    rest_bytes = c.bytes - n - header_size

    abbrev pub rest_at : ℕ
    rest_at = a + header_size + n

    abbrev pub final : Memory Block
    final = taken_memory (split_memory m a c n vs) a

    abbrev created : Memory Block
    created = write m rest_at (header (head_or vs none) (some a) (block rest_bytes true))

    abbrev relinked : Memory Block
    relinked = set_prev? created (head_or vs none) (some rest_at)

    relinked-at : relinked a ≡ header (head_or vs none) (last_or us none) c
    relinked-at =
        set_prev?-before r a (some rest_at) created (omega arith)
        ∙ (unfold write in ground (arith, r.here))

    relinked-rest : relinked rest_at ≡ header (head_or vs none) (some a) (block rest_bytes true)
    relinked-rest =
        set_prev?-before r rest_at (some rest_at) created (omega arith)
        ∙ (unfold write in ground arith)

    final-at : final a ≡ header (some rest_at) (last_or us none) (block n false)
    final-at = unfold write in ground (arith, relinked-at)

    final-rest : final rest_at ≡ header (head_or vs none) (some a) (block rest_bytes true)
    final-rest = unfold write in ground (arith, relinked-rest)

    -- the block in use, with what is left of it behind
    pub Around-split : Around final lo us a (block n false) ((rest_at, block rest_bytes true) ∷ vs)
    Around-split = record {
      tiles_front = r.tiles_front;
      at = r.at;
      tiles_back = (refl, subst (λ e. Tiles e vs) (omega arith) r.tiles_back);
      front = front-write r a _ _ (omega arith) (
          front-write r a _ _ (omega arith) (
            front-write r a _ _ (omega arith) (
              front-set_prev? r (some rest_at) created
                (front-write r rest_at _ m (omega arith) r.front))));
      here = final-at;
      back = (
        final-rest,
        back-write r a _ _ _ (omega arith) (
            back-write r a _ _ _ (omega arith) (
              back-write r a _ _ _ (omega arith) (
                Linked-set_prev? created (some a) (some rest_at) (a + header_size + c.bytes) vs
                  r.tiles_back (back-write r rest_at (some a) _ m (omega arith) r.back)))),
      );
    }
