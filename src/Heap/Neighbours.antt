-- ===== src/Heap/Neighbours.antt =====
-- The block that `free` marks, merged with what stands around it.
use radish_os.Prelude.{
  ℕ, ◌+◌, ◌<◌, ◌≡◌, refl, sym, ap, ◌∙◌, Bool, true, false, inl, inr, none, [], ◌∷◌, ◌++◌, arith,
  Bool-cases, subst,
}
use mathlib.Core.List.{append_assoc, append-nil}
use radish_os.Prelude.Words.{u64_mod}
use radish_os.LinkedList.{Memory}
use radish_os.LinkedList.Nodes.{Nodes, Linked}
use radish_os.Heap.{Block, header_size, merge_next, merge_prev}
use radish_os.Heap.Layout.{
  block, Tiles, end_of, end_of-le, Merged, last_free, Merged-append, Merged-split, live,
  live-append,
}
use radish_os.Heap.Around.{Around, around, Around-Linked, Around-Tiles, Around-end}
use radish_os.Heap.Extend.{last_split}
use radish_os.Heap.Merge.{
  Around-swallow, merge_next-last, merge_next-free, merge_next-used, merge_prev-first,
  merge_prev-free, merge_prev-used,
}

-- the blocks behind after `merge_next`: those of `vs`, but for a free one that was swallowed
pub record MergedNext (m : Memory Block) (lo : ℕ) (us : Nodes Block) (a : ℕ) (c : Block)
    (vs : Nodes Block) : Type 0 where
  pub bytes : ℕ
  pub ws : Nodes Block
  pub spot : Around (merge_next m a) lo us a (block bytes true) ws
  pub same_end : end_of (a + header_size + bytes) ws ≡ end_of (a + header_size + c.bytes) vs
  pub same_live : live ws ≡ live vs
  pub merged : Merged true ws

pub merge_next_lem :
    (m : Memory Block) (lo : ℕ) (us : Nodes Block) (a n : ℕ) (vs : Nodes Block) (f : Bool)
    → Around m lo us a (block n true) vs
    → end_of (a + header_size + n) vs < u64_mod
    → Merged f vs
    → MergedNext m lo us a (block n true) vs
unfolding merge_next
merge_next_lem m lo us a n [] f r small g = record {
  bytes = n;
  ws = [];
  spot = rw (merge_next-last r) r;
  same_end = refl;
  same_live = refl;
  merged = tt;
}
merge_next_lem m lo us a n ((b, d) ∷ ws) f r small g = elim (Bool-cases d.free) [
  | inr used ↦ record {
    bytes = n;
    ws = (b, d) ∷ ws;
    spot = rw (merge_next-used r used) r;
    same_end = refl;
    same_live = refl;
    merged = (rw used, g.1);
  }
  | inl free ↦ record {
    bytes = n + (header_size + d.bytes);
    ws = ws;
    spot =
        rw
          (merge_next-free r
            (omega
              (arith, r.tiles_back.0, end_of-le (a + header_size + n + header_size + d.bytes) ws))
            refl free)
          (Around-swallow r);
    same_end = ap (λ (e : ℕ). end_of e ws) (omega arith);
    same_live = rw free;
    merged = rw free at g.1;
  }
]

-- the whole list after `merge_prev`
pub record MergedPrev (m : Memory Block) (lo : ℕ) (us : Nodes Block) (a : ℕ) (c : Block)
    (ws : Nodes Block) : Type 0 where
  pub blocks : Nodes Block
  pub linked : Linked (merge_prev m a) none blocks none
  pub tiles : Tiles lo blocks
  pub same_end : end_of lo blocks ≡ end_of (a + header_size + c.bytes) ws
  pub same_live : live blocks ≡ live us ++ live ws
  pub merged : Merged false blocks

relink :
    {m m' : Memory Block} (xs : Nodes Block)
    → m' ≡ m
    → Linked m none xs none
    → Linked m' none xs none
relink xs e = subst (λ k. Linked k none xs none) (sym e)

last_free-last :
    (f : Bool) (us : Nodes Block) (z : ℕ) (e : Block) → last_free f (us ++ (z, e) ∷ []) ≡ e.free
last_free-last f [] z e = refl
last_free-last f ((a, b) ∷ us) z e = last_free-last b.free us z e

pub live-last_free :
    (us : Nodes Block) (z : ℕ) (e : Block) → e.free ≡ true → live (us ++ (z, e) ∷ []) ≡ live us
live-last_free us z e f = rw (live-append, f) (append-nil (live us))

module _ (m : Memory Block) (lo a n : ℕ) (ws : Nodes Block)
    (small : end_of (a + header_size + n) ws < u64_mod) (behind : Merged true ws) where
  merge_prev_none : Around m lo [] a (block n true) ws → MergedPrev m lo [] a (block n true) ws
  merge_prev_none r = record {
    blocks = (a, block n true) ∷ ws;
    linked = relink ((a, block n true) ∷ ws) (merge_prev-first r) (Around-Linked r);
    tiles = Around-Tiles r;
    same_end = Around-end r;
    same_live = refl;
    merged = (refl, behind);
  }

  merge_prev_some :
      (us : Nodes Block) (z : ℕ) (e : Block)
      → Around m lo (us ++ (z, e) ∷ []) a (block n true) ws
      → Merged false (us ++ (z, e) ∷ [])
      → MergedPrev m lo (us ++ (z, e) ∷ []) a (block n true) ws
  merge_prev_some us z e r g =
      let pair : Around m lo us z e ((a, block n true) ∷ ws) =
        around m lo us z e ((a, block n true) ∷ ws) (rw append_assoc at (Around-Tiles r))
          (rw append_assoc at (Around-Linked r)) in
      let (front, last) = Merged-split false us ((z, e) ∷ []) g in
      elim (Bool-cases e.free) [
        | inl free ↦ record {
          blocks = us ++ (z, block (e.bytes + (header_size + n)) true) ∷ ws;
          linked =
              relink _
                (merge_prev-free pair (omega (arith, end_of-le (a + header_size + n) ws)) free)
                (Around-Linked (Around-swallow pair));
          tiles = Around-Tiles (Around-swallow pair);
          same_end =
              Around-end (Around-swallow pair)
              ∙ ap (λ (t : ℕ). end_of t ws) (omega (arith, pair.tiles_back.0));
          same_live = rw (live-append, live-last_free us z e free);
          merged = Merged-append false us _ front (rw free at last.0, behind);
        }
        | inr used ↦ record {
          blocks = (us ++ (z, e) ∷ []) ++ (a, block n true) ∷ ws;
          linked = relink _ (merge_prev-used pair used) (Around-Linked r);
          tiles = Around-Tiles r;
          same_end = Around-end r;
          same_live = live-append (us ++ (z, e) ∷ []) ((a, block n true) ∷ ws);
          merged =
              Merged-append false (us ++ (z, e) ∷ []) _ g (rw (last_free-last, used) refl, behind);
        }
      ]

  pub merge_prev_lem :
      (us : Nodes Block)
      → Around m lo us a (block n true) ws
      → Merged false us
      → MergedPrev m lo us a (block n true) ws
  merge_prev_lem [] r g = merge_prev_none r
  merge_prev_lem ((x, y) ∷ us) r g =
      let (vs, z, e, q) = last_split x y us in
      subst
        (λ us.
          Around m lo us a (block n true) ws
          → Merged false us
          → MergedPrev m lo us a (block n true) ws)
        (sym q) (merge_prev_some vs z e) r g
