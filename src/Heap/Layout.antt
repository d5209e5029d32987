-- ===== src/Heap/Layout.antt =====
-- The blocks of a heap as a list: how they lie in memory, and what is in use.
use radish_os.Prelude.{
  ℕ, ◌+◌, ◌*◌, ◌≤◌, ◌<◌, ◌≡◌, refl, ◌∙◌, Bool, false, ◌&&◌, Option, none, some, List, [], ◌∷◌, ◌++◌,
  arith, if◌then◌else◌, length,
}
use radish_os.LinkedList.{LinkedListHeader, Memory, write, set_prev?}
use radish_os.LinkedList.Nodes.{Nodes, head_or, Linked}
use radish_os.Heap.{Block, header_size}

abbrev pub block : ℕ → Bool → Block
block n f = record { bytes = n; free = f }

-- the address behind blocks that begin at `lo`
abbrev pub end_of : ℕ → Nodes Block → ℕ
end_of lo [] = lo
end_of lo ((a, b) ∷ xs) = end_of (lo + header_size + b.bytes) xs

-- each block begins where the one before it ends
abbrev pub Tiles : ℕ → Nodes Block → Type 0
Tiles lo [] = Unit
Tiles lo ((a, b) ∷ xs) = (a ≡ lo) × Tiles (lo + header_size + b.bytes) xs

-- no free block follows a free block; `f` says whether the one before is free
abbrev pub Merged : Bool → Nodes Block → Type 0
Merged f [] = Unit
Merged f ((a, b) ∷ xs) = ((f && b.free) ≡ false) × Merged b.free xs

abbrev pub last_free : Bool → Nodes Block → Bool
last_free f [] = f
last_free f ((a, b) ∷ xs) = last_free b.free xs

-- what the clients hold: the address and size of each block in use, in order
abbrev pub live : Nodes Block → List (ℕ × ℕ)
live [] = []
live ((a, b) ∷ xs) = if b.free then live xs else (a + header_size, b.bytes) ∷ live xs

pub end_of-append : (lo : ℕ) (xs ys : Nodes Block) → end_of lo (xs ++ ys) ≡ end_of (end_of lo xs) ys
end_of-append lo [] ys = refl
end_of-append lo ((a, b) ∷ xs) ys = end_of-append (lo + header_size + b.bytes) xs ys

pub end_of-le : (lo : ℕ) (xs : Nodes Block) → lo + header_size * length xs ≤ end_of lo xs
end_of-le lo [] = omega arith
end_of-le lo ((a, b) ∷ xs) = omega (arith, end_of-le (lo + header_size + b.bytes) xs)

pub Tiles-append :
    (lo : ℕ) (xs ys : Nodes Block) → Tiles lo xs → Tiles (end_of lo xs) ys → Tiles lo (xs ++ ys)
Tiles-append lo [] ys h k = k
Tiles-append lo ((a, b) ∷ xs) ys h k = (h.0, Tiles-append (lo + header_size + b.bytes) xs ys h.1 k)

pub Tiles-split :
    (lo : ℕ) (xs ys : Nodes Block) → Tiles lo (xs ++ ys) → Tiles lo xs × Tiles (end_of lo xs) ys
Tiles-split lo [] ys h = (tt, h)
Tiles-split lo ((a, b) ∷ xs) ys h =
    let (p, q) = Tiles-split (lo + header_size + b.bytes) xs ys h.1 in ((h.0, p), q)

pub Merged-append :
    (f : Bool) (xs ys : Nodes Block)
    → Merged f xs
    → Merged (last_free f xs) ys
    → Merged f (xs ++ ys)
Merged-append f [] ys h k = k
Merged-append f ((a, b) ∷ xs) ys h k = (h.0, Merged-append b.free xs ys h.1 k)

pub Merged-split :
    (f : Bool) (xs ys : Nodes Block)
    → Merged f (xs ++ ys)
    → Merged f xs × Merged (last_free f xs) ys
Merged-split f [] ys h = (tt, h)
Merged-split f ((a, b) ∷ xs) ys h = let (p, q) = Merged-split b.free xs ys h.1 in ((h.0, p), q)

-- a used block before suits whatever follows
pub Merged-after_used : (f : Bool) (xs : Nodes Block) → Merged f xs → Merged false xs
Merged-after_used f [] h = tt
Merged-after_used f ((a, b) ∷ xs) h = (refl, h.1)

pub live-append : (xs ys : Nodes Block) → live (xs ++ ys) ≡ live xs ++ live ys
live-append [] ys = refl
live-append ((a, b) ∷ xs) ys = ground (arith, live-append xs ys)

-- Blocks survive a change of memory outside them.
pub Linked-frame :
    (m m' : Memory Block) (start stop : Option ℕ) (lo : ℕ) (xs : Nodes Block)
    → Tiles lo xs
    → ((x : ℕ) → lo ≤ x → x < end_of lo xs → m' x ≡ m x)
    → Linked m start xs stop
    → Linked m' start xs stop
Linked-frame m m' start stop lo [] t same l = tt
Linked-frame m m' start stop lo ((a, b) ∷ xs) t same l = (
  same a (omega arith) (omega (arith, end_of-le (lo + header_size + b.bytes) xs)) ∙ l.0,
  Linked-frame m m' (some a) stop (lo + header_size + b.bytes) xs t.1
      (λ x h k. same x (omega arith) k) l.1,
)

-- A write in front of some blocks, or behind them, leaves them linked.
pub Linked-write :
    (m : Memory Block) (p : ℕ) (start stop : Option ℕ) (lo : ℕ) (xs : Nodes Block)
    (h : LinkedListHeader Block)
    → Tiles lo xs
    → (lo ≤ p → p < end_of lo xs → ⊥)
    → Linked m start xs stop
    → Linked (write m p h) start xs stop
unfolding write
Linked-write m p start stop lo xs h t out l =
    Linked-frame m _ start stop lo xs t (λ x above below. ground (arith, out)) l

-- The first block behind a write is linked back to another one.
pub Linked-set_prev? :
    (m : Memory Block) (start before : Option ℕ) (lo : ℕ) (xs : Nodes Block)
    → Tiles lo xs
    → Linked m start xs none
    → Linked (set_prev? m (head_or xs none) before) before xs none
unfolding write
Linked-set_prev? m start before lo [] t l = tt
Linked-set_prev? m start before lo ((a, b) ∷ xs) t l = (
  ground (arith, l.0),
  Linked-write m a (some a) none (lo + header_size + b.bytes) xs _ t.1 (λ above below. omega arith)
      l.1,
)

-- Linking blocks to another one in front of them changes no header below them.
pub set_prev?-below :
    (x lo : ℕ) (ws : Nodes Block) (before : Option ℕ) (m : Memory Block)
    → Tiles lo ws
    → x < lo
    → set_prev? m (head_or ws none) before x ≡ m x
unfolding write
set_prev?-below x lo [] before m t h = refl
set_prev?-below x lo ((b, d) ∷ ws) before m t h = ground arith

pub Linked-set_prev?_below :
    (m : Memory Block) (start stop before : Option ℕ) (lo mid : ℕ) (us ws : Nodes Block)
    → Tiles lo us
    → Tiles mid ws
    → end_of lo us ≤ mid
    → Linked m start us stop
    → Linked (set_prev? m (head_or ws none) before) start us stop
Linked-set_prev?_below m start stop before lo mid us ws t k le l =
    Linked-frame m _ start stop lo us t
      (λ x above below. set_prev?-below x mid ws before m k (omega arith)) l
