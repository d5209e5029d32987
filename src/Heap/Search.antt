-- ===== src/Heap/Search.antt =====
-- The walks over the block list: first fit, and the test of `shorten`.
use radish_os.Prelude.{
  ℕ, zero, suc, ◌<◌, ◌≡◌, refl, ◌⊎◌, inl, inr, Bool, true, false, ◌&&◌, Option, none, some, [], ◌∷◌,
  ◌++◌, arith, leb, length, Bool-cases,
}
use radish_os.Outcome.{ok}
use radish_os.LinkedList.{Memory}
use radish_os.LinkedList.Nodes.{Nodes, head_or, Linked}
use radish_os.Heap.{Block, find_loop}

-- a block that `allocate n` can use
abbrev pub fits : ℕ → Block → Bool
fits n b = b.free && leb n b.bytes

abbrev pub NoneFits : ℕ → Nodes Block → Type 0
NoneFits n [] = Unit
NoneFits n ((a, b) ∷ xs) = (fits n b ≡ false) × NoneFits n xs

-- `us` and `vs` stand around the first block that fits
pub record FirstFit (n : ℕ) (xs us : Nodes Block) (a : ℕ) (c : Block) (vs : Nodes Block)
    : Type 0 where
  pub split : xs ≡ us ++ (a, c) ∷ vs
  pub fitting : fits n c ≡ true
  pub before : NoneFits n us

pub find_loop_lem :
    (fuel : ℕ) (m : Memory Block) (n : ℕ) (start : Option ℕ) (xs : Nodes Block)
    → length xs < fuel
    → Linked m start xs none
    → ((us : Nodes Block) × (a : ℕ) × (c : Block) × (vs : Nodes Block) × (find_loop fuel m n
            (head_or xs none)
          ≡ ok (some a))
        × FirstFit n xs us a c vs)
      ⊎ ((find_loop fuel m n (head_or xs none) ≡ ok none) × NoneFits n xs)
unfolding find_loop
find_loop_lem zero m n start xs h l = absurd (omega arith)
find_loop_lem (suc fuel) m n start [] h l = inr (refl, tt)
find_loop_lem (suc fuel) m n start ((a, b) ∷ xs) h l = elim (Bool-cases (fits n b)) [
  | inl good ↦ inl (
    [],
    a,
    b,
    xs,
    rw (l.0, find_loop) (rw good),
    record { split = refl; fitting = good; before = tt },
  )
  | inr bad ↦ elim (find_loop_lem fuel m n (some a) xs (omega arith) l.1) [
    | inl (us, x, c, vs, e, f) ↦ inl (
      (a, b) ∷ us,
      x,
      c,
      vs,
      rw (l.0, find_loop) (rw bad e),
      record { split = rw f.split; fitting = f.fitting; before = (bad, f.before) },
    )
    | inr (e, none_fits) ↦ inr (rw (l.0, find_loop) (rw bad e), (bad, none_fits))
  ]
]
