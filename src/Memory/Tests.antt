-- ===== src/Memory/Tests.antt =====
-- A move to an overlapping place.
use radish_os.Prelude.{◌≡◌, refl}
use radish_os.Memory.{memmove, copy_up, copy_down}
use radish_os.Memory.Copy.{memmove_lem}

memmove_lem_example : memmove 12 10 4 (λ a. a) 14 ≡ 12
memmove_lem_example = memmove_lem 12 10 4 (λ a. a) 14

-- the same bytes, downwards
moved_down : memmove 10 12 4 (λ a. a) 13 ≡ 15
unfolding memmove copy_up copy_down
moved_down = refl
