-- ===== src/Bitmap/Fill.antt =====
-- `setAll` and `clearAll`.
use radish_os.Prelude.{ℕ, zero, suc, ◌+◌, ◌≡◌, true, false, ◌&&◌, ltb, leb, if◌then◌else◌, arith}
use radish_os.Bitmap.{StaticBitmap, test, set, clear, set_from, set_all, clear_from, clear_all}
use radish_os.Bitmap.Laws.{IsSized, set-IsSized, clear-IsSized, test-set, test-clear, test-lt}

set_from-IsSized : (n k i : ℕ) (b : StaticBitmap) → IsSized n b → IsSized n (set_from n k i b)
unfolding set_from
set_from-IsSized n zero i b v = v
set_from-IsSized n (suc k) i b v = set_from-IsSized n k (i + 1) (set n b i) (set-IsSized n i v)

pub set_all-IsSized : (n : ℕ) (b : StaticBitmap) → IsSized n b → IsSized n (set_all n b)
unfolding set_all
set_all-IsSized n b v = set_from-IsSized n n 0 b v

clear_from-IsSized : (n k i : ℕ) (b : StaticBitmap) → IsSized n b → IsSized n (clear_from n k i b)
unfolding clear_from
clear_from-IsSized n zero i b v = v
clear_from-IsSized n (suc k) i b v =
    clear_from-IsSized n k (i + 1) (clear n b i) (clear-IsSized n i v)

test-set_from :
    (n k i j : ℕ) (b : StaticBitmap)
    → IsSized n b
    → i + k ≡ n
    → test n (set_from n k i b) j ≡ (if leb i j && ltb j n then true else test n b j)
unfolding set_from
test-set_from n zero i j b v e = ground arith
test-set_from n (suc k) i j b v e =
    ground (arith, test-set_from n k (i + 1) j (set n b i) (set-IsSized n i v), test-set n b i j v)

test-clear_from :
    (n k i j : ℕ) (b : StaticBitmap)
    → IsSized n b
    → i + k ≡ n
    → test n (clear_from n k i b) j ≡ (if leb i j && ltb j n then false else test n b j)
unfolding clear_from
test-clear_from n zero i j b v e = ground arith
test-clear_from n (suc k) i j b v e =
    ground (
      arith,
      test-clear_from n k (i + 1) j (clear n b i) (clear-IsSized n i v),
      test-clear n b i j v,
    )

-- After `setAll` exactly the bits below N are set; after `clearAll` none is.
pub test_fill :
    (n : ℕ) (b : StaticBitmap) (j : ℕ)
    → IsSized n b
    → (test n (set_all n b) j ≡ ltb j n) × (test n (clear_all n b) j ≡ false)
unfolding set_all clear_all
test_fill n b j v = (
  ground (arith, test-set_from n n 0 j b v, test-lt n b j),
  ground (arith, test-clear_from n n 0 j b v, test-lt n b j),
)
