-- ===== src/Allocator.antt =====
-- kernel/include/mem/allocators/static_bitmap.hpp: `StaticBitmapAllocator<T, SIZE>`. SIZE is the
-- first argument of each method. `last_allocated` stays below SIZE, so that it does not wrap.
pub mod Search
pub mod Laws
mod Tests
use radish_os.Prelude.{ℕ, zero, suc, ◌+◌, not, leb, ◌==◌, if◌then◌else◌}
use radish_os.Outcome.{Outcome, ok, panic, out_of_fuel, out_of_memory, double_free, ◌>>=◌}
use radish_os.Bitmap
use radish_os.Bitmap.{StaticBitmap}

pub record StaticBitmapAllocator : Type 0 where
  pub bitmap : StaticBitmap
  pub last_allocated : ℕ

-- `++last_allocated`, back to 0 at SIZE
pub advance : ℕ → ℕ → ℕ
advance size last = if leb size (last + 1) then 0 else last + 1

-- what the loop leaves in `last_allocated`, with `found`, or without
pub data Probe : Type 0 where
  found : ℕ → Probe
  exhausted : Probe
  unfinished : Probe

-- the do-while loop; `start` is where it began
pub probe : ℕ → StaticBitmap → ℕ → ℕ → ℕ → Probe
probe size b start zero last = unfinished
probe size b start (suc fuel) last =
    let next = advance size last in
    let rest = probe size b start fuel next in
    let again = if next == start then exhausted else rest in
    if not (Bitmap.test size b last) then found last else again

take : ℕ → StaticBitmapAllocator → Probe → Outcome StaticBitmapAllocator
take size a (found last) =
    ok (record { bitmap = Bitmap.set size a.bitmap last; last_allocated = last })
take size a exhausted = panic out_of_memory
take size a unfinished = out_of_fuel

-- one round of the `for` loop of `allocate`
pub allocate_one : ℕ → StaticBitmapAllocator → Outcome StaticBitmapAllocator
allocate_one size a = take size a (probe size a.bitmap a.last_allocated size a.last_allocated)

allocate_loop : ℕ → ℕ → StaticBitmapAllocator → Outcome StaticBitmapAllocator
allocate_loop size zero a = ok a
allocate_loop size (suc n) a = do a' ← allocate_one size a; allocate_loop size n a'

-- the result is the last bit that was taken
pub allocate : ℕ → ℕ → StaticBitmapAllocator → Outcome (ℕ × StaticBitmapAllocator)
allocate size n a = do a' ← allocate_loop size n a; ok (a'.last_allocated, a')

pub free : ℕ → ℕ → StaticBitmapAllocator → Outcome StaticBitmapAllocator
free size n a =
    if not (Bitmap.test size a.bitmap n)
    then panic double_free
    else ok (record a { bitmap = Bitmap.clear size a.bitmap n })
