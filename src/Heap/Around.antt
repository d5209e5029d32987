-- ===== src/Heap/Around.antt =====
-- One block among the others: what holds around it, and how to put a list together again.
use radish_os.Prelude.{
  ℕ, ◌+◌, ◌≤◌, ◌<◌, ◌≡◌, refl, sym, ◌∙◌, Option, none, some, [], ◌∷◌, ◌++◌, arith,
}
use radish_os.LinkedList.{LinkedListHeader, Memory, write, set_prev?}
use radish_os.LinkedList.Nodes.{
  Nodes, header, head_or, last_or, Linked, Linked-append, Linked-front, Linked-back,
}
use radish_os.Heap.{Block, header_size}
use radish_os.Heap.Layout.{
  Tiles, end_of, end_of-le, end_of-append, Tiles-append, Tiles-split, Linked-write,
}

-- the block `c` at `a` stands between the blocks `us`, from `lo` on, and `vs`
pub record Around (m : Memory Block) (lo : ℕ) (us : Nodes Block) (a : ℕ) (c : Block)
    (vs : Nodes Block) : Type 0 where
  pub tiles_front : Tiles lo us
  pub at : end_of lo us ≡ a
  pub tiles_back : Tiles (a + header_size + c.bytes) vs
  pub front : Linked m none us (some a)
  pub here : m a ≡ header (head_or vs none) (last_or us none) c
  pub back : Linked m (some a) vs none

pub around :
    (m : Memory Block) (lo : ℕ) (us : Nodes Block) (a : ℕ) (c : Block) (vs : Nodes Block)
    → Tiles lo (us ++ (a, c) ∷ vs)
    → Linked m none (us ++ (a, c) ∷ vs) none
    → Around m lo us a c vs
around m lo us a c vs t l =
    let (tf, tb) = Tiles-split lo us ((a, c) ∷ vs) t in
    let e : end_of lo us ≡ a = sym tb.0 in
    let b : Linked m (last_or us none) ((a, c) ∷ vs) none =
      Linked-back m none us ((a, c) ∷ vs) none l in
    record {
      tiles_front = tf;
      at = e;
      tiles_back = rw e at tb.1;
      front = Linked-front m none us ((a, c) ∷ vs) none l;
      here = b.0;
      back = b.1;
    }

module _ {m : Memory Block} {lo : ℕ} {us : Nodes Block} {a : ℕ} {c : Block} {vs : Nodes Block}
    (r : Around m lo us a c vs) where
  pub Around-Tiles : Tiles lo (us ++ (a, c) ∷ vs)
  Around-Tiles = Tiles-append lo us ((a, c) ∷ vs) r.tiles_front (rw r.at (refl, r.tiles_back))

  pub Around-Linked : Linked m none (us ++ (a, c) ∷ vs) none
  Around-Linked = Linked-append m none us ((a, c) ∷ vs) none r.front (r.here, r.back)

  pub Around-lo : lo ≤ a
  Around-lo = omega (arith, end_of-le lo us, r.at)

  pub Around-end : end_of lo (us ++ (a, c) ∷ vs) ≡ end_of (a + header_size + c.bytes) vs
  Around-end = end_of-append lo us ((a, c) ∷ vs) ∙ rw r.at

  -- the block ends where the heap does, at most
  pub Around-le : a + header_size + c.bytes ≤ end_of lo (us ++ (a, c) ∷ vs)
  Around-le = omega (arith, Around-end, end_of-le (a + header_size + c.bytes) vs)

  -- a write at the block, or behind it, spares the blocks before
  pub front-write :
      (p : ℕ) (h : LinkedListHeader Block) (n : Memory Block)
      → a ≤ p
      → Linked n none us (some a)
      → Linked (write n p h) none us (some a)
  front-write p h n le l =
      Linked-write n p none (some a) lo us h r.tiles_front (λ above below. omega (arith, r.at)) l

  pub front-set_prev? :
      (before : Option ℕ) (n : Memory Block)
      → Linked n none us (some a)
      → Linked (set_prev? n (head_or vs none) before) none us (some a)
  front-set_prev? before n l = behind vs r.tiles_back
    where
      behind :
          (ws : Nodes Block)
          → Tiles (a + header_size + c.bytes) ws
          → Linked (set_prev? n (head_or ws none) before) none us (some a)
      behind [] t = l
      behind ((b, d) ∷ ws) t = front-write b _ n (omega arith) l

  -- a write before the end of the block spares the blocks behind
  pub back-write :
      (p : ℕ) (start : Option ℕ) (h : LinkedListHeader Block) (n : Memory Block)
      → p < a + header_size + c.bytes
      → Linked n start vs none
      → Linked (write n p h) start vs none
  back-write p start h n lt l =
      Linked-write n p start none (a + header_size + c.bytes) vs h r.tiles_back
        (λ above below. omega arith) l

  -- linking the blocks behind to another one changes no header before them
  pub set_prev?-before :
      (x : ℕ) (before : Option ℕ) (n : Memory Block)
      → x < a + header_size + c.bytes
      → set_prev? n (head_or vs none) before x ≡ n x
  set_prev?-before x before n lt = outside vs r.tiles_back
    where
      outside :
          (ws : Nodes Block)
          → Tiles (a + header_size + c.bytes) ws
          → set_prev? n (head_or ws none) before x ≡ n x
      outside [] t = refl
      outside ((b, d) ∷ ws) t = unfold write in ground arith
