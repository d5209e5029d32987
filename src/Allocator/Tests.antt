-- ===== src/Allocator/Tests.antt =====
-- An allocator of three bits, run.
use radish_os.Prelude.{ℕ, ◌≡◌, refl, [], ◌∷◌, arith}
use radish_os.Outcome.{ok}
use radish_os.Bitmap
use radish_os.Allocator.{
  StaticBitmapAllocator, allocate, allocate_loop, allocate_one, take, probe, advance, free,
}
use radish_os.Allocator.Laws.{used, IsValid, free-allocate}

abbrev tiny : StaticBitmapAllocator
tiny = record { bitmap = record { words = 0 ∷ [] }; last_allocated = 2 }

abbrev tiny_after : StaticBitmapAllocator
tiny_after = record { bitmap = record { words = 4 ∷ [] }; last_allocated = 2 }

tiny-IsValid : IsValid 3 tiny
tiny-IsValid = record { bits = record { sized = refl }; cursor = omega arith }

allocate-tiny : allocate 3 1 tiny ≡ ok (2, tiny_after)
unfolding allocate allocate_loop allocate_one take probe advance Bitmap.set Bitmap.test
allocate-tiny = refl

free-allocate_example :
    (c : StaticBitmapAllocator) × (free 3 2 tiny_after ≡ ok c)
    × ((j : ℕ) → used 3 c j ≡ used 3 tiny j)
free-allocate_example = free-allocate 3 2 tiny tiny_after tiny-IsValid allocate-tiny
