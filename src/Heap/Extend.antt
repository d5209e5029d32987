-- ===== src/Heap/Extend.antt =====
-- `extend`: one more page behind the last block.
pub mod Step
use radish_os.Prelude.{
  ℕ, ◌+◌, ◌-◌, ◌*◌, ◌≤◌, ◌<◌, ◌≡◌, refl, sym, ap, ◌∙◌, Bool, true, false, ◌&&◌, ◌⊎◌, inl, inr,
  Option, none, some, List, [], ◌∷◌, ◌++◌, arith, ◌==◌, leb, if◌then◌else◌, Bool-cases, length,
  length-append,
}
use radish_os.Prelude.Words.{u64_mod, add64, sub64}
use radish_os.Outcome.{Outcome, ok, panic, Panic, ◌>>=◌, ends_cases}
use radish_os.Bytes.{page_size}
use radish_os.LinkedList.{
  LinkedListHeader, Memory, write, write_self, write_ne, last, append, set_rest, set_next, set_prev,
}
use radish_os.LinkedList.Nodes.{Nodes, header, head_or, last_or, Linked, last_loop_lem}
use radish_os.Heap.{Block, HeapAllocator, PageMapper, header_size, extend, block_fuel}
use radish_os.Heap.Layout.{
  block, Tiles, end_of, Merged, last_free, live, live-append, Merged-append, Merged-split,
}
use radish_os.Heap.Around.{
  Around, around, front-write, Around-le, Around-Linked, Around-Tiles, Around-end,
}
use radish_os.Heap.Invariant.{Represents, Represents-head, Represents-fuel}

-- the bytes from the header of the last block on, if that is free
abbrev pub room : Nodes Block → ℕ
room [] = 0
room ((a, b) ∷ []) = if b.free then b.bytes + header_size else 0
room ((a, b) ∷ y ∷ ys) = room (y ∷ ys)

pub room-last :
    (us : Nodes Block) (z : ℕ) (d : Block)
    → room (us ++ (z, d) ∷ []) ≡ (if d.free then d.bytes + header_size else 0)
room-last [] z d = refl
room-last ((a, b) ∷ []) z d = refl
room-last ((a, b) ∷ y ∷ ys) z d = room-last (y ∷ ys) z d

pub room-behind :
    (us : Nodes Block) (z : ℕ) (d : Block) (n : ℕ) (e : Block)
    → room (us ++ (z, d) ∷ (n, e) ∷ []) ≡ (if e.free then e.bytes + header_size else 0)
room-behind [] z d n e = refl
room-behind ((a, b) ∷ []) z d n e = refl
room-behind ((a, b) ∷ y ∷ ys) z d n e = room-behind (y ∷ ys) z d n e

pub last_or-last :
    (us : Nodes Block) (z : ℕ) (d : Block) (start : Option ℕ)
    → last_or (us ++ (z, d) ∷ []) start ≡ some z
last_or-last [] z d start = refl
last_or-last ((a, b) ∷ us) z d start = last_or-last us z d (some a)

-- a list that is not empty ends with a block
pub last_split :
    (a : ℕ) (b : Block) (xs : Nodes Block)
    → (us : Nodes Block) × (z : ℕ) × (d : Block) × ((a, b) ∷ xs ≡ us ++ (z, d) ∷ [])
last_split a b [] = ([], a, b, refl)
last_split a b ((c, d) ∷ xs) = let (us, z, e, p) = last_split c d xs in ((a, b) ∷ us, z, e, rw p)

-- `last` on any list whose blocks are linked, with fuel for its length
pub last_lem :
    (fuel : ℕ) (m : Memory Block) (xs us : Nodes Block) (z : ℕ) (d : Block) (l : Option ℕ)
    → xs ≡ us ++ (z, d) ∷ []
    → head_or xs none ≡ l
    → length xs < fuel
    → Linked m none xs none
    → last fuel m l ≡ ok z
unfolding last
last_lem fuel m [] us z d l e k h n =
    absurd (omega (arith, ap length e, length-append us ((z, d) ∷ [])))
last_lem fuel m ((a, b) ∷ xs) us z d l e k h n =
    let (y, p, q) = last_loop_lem fuel m none a b xs (omega arith) n in
    let same : some y ≡ some z =
      sym q ∙ (ap (λ (ys : Nodes Block). last_or ys none) e ∙ last_or-last us z d none) in
    rw (← k) (p ∙ cc)

-- what one more page leaves as it was, and what it gives
pub record Grown {S : Type 0} (h h' : HeapAllocator S) (xs ys : Nodes Block) : Type 0 where
  pub represents : Represents h' ys
  pub same_live : live ys ≡ live xs
  pub more_room : room ys ≡ room xs + page_size
  pub one_page : h'.pages ≡ h.pages + 1
  pub same_base : h'.base ≡ h.base
  pub same_alignment : h'.alignment ≡ h.alignment

module _ {m : Memory Block} {lo : ℕ} {us : Nodes Block} {z : ℕ} {d : Block}
    (r : Around m lo us z d []) where
  -- the last block, free, grows over the page
  pub Around-grow :
      (p : LinkedListHeader Block) (n : ℕ)
      → p ≡ header none (last_or us none) (block n true)
      → Around (write m z p) lo us z (block n true) []
  unfolding write
  Around-grow p n e = record {
    tiles_front = r.tiles_front;
    at = r.at;
    tiles_back = tt;
    front = front-write r z p m (omega arith) r.front;
    here = ground arith;
    back = tt;
  }

  module _ (np n : ℕ) (behind : np ≡ z + header_size + d.bytes) where
    abbrev pub made : Memory Block
    made = write m np (header none (some z) (block n true))

    abbrev pub joined : Memory Block
    joined = set_next (set_prev (set_next made z (some np)) np (some z)) np none

    joined-at : joined z ≡ header (some np) (last_or us none) d
    joined-at = unfold write in ground (arith, r.here)

    joined-new : joined np ≡ header none (some z) (block n true)
    joined-new = unfold write in ground arith

    -- the last block, in use, gets a free one behind it
    pub Around-append : Around joined lo us z d ((np, block n true) ∷ [])
    Around-append = record {
      tiles_front = r.tiles_front;
      at = r.at;
      tiles_back = (behind, tt);
      front = front-write r np _ _ (omega arith) (
          front-write r np _ _ (omega arith)
            (front-write r z _ _ (omega arith) (front-write r np _ m (omega arith) r.front)));
      here = joined-at;
      back = (joined-new, tt);
    }
