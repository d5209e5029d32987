-- ===== src/Memory.antt =====
-- kernel/lib/memory.cpp: `memcpy`, `memset` and `memmove`, on a memory of bytes. An object does not
-- go round the end of the address space.
pub mod Copy
mod Tests
use radish_os.Prelude.{ℕ, zero, suc, ◌+◌, ◌%◌, ◌==◌, ltb, if◌then◌else◌}

abbrev pub Ram : Type 0
Ram = ℕ → ℕ

abbrev pub store : ℕ → ℕ → Ram → Ram
store at value m a = if a == at then value else m a

-- `for (i = 0; i < n; i++) pdest[i] = psrc[i]`, for the rounds that are left
pub copy_up : ℕ → ℕ → ℕ → ℕ → Ram → Ram
copy_up zero i dest src m = m
copy_up (suc k) i dest src m = copy_up k (i + 1) dest src (store (dest + i) (m (src + i)) m)

-- `for (i = n; i > 0; i--) pdest[i-1] = psrc[i-1]`
pub copy_down : ℕ → ℕ → ℕ → Ram → Ram
copy_down zero dest src m = m
copy_down (suc i) dest src m = copy_down i dest src (store (dest + i) (m (src + i)) m)

pub fill_up : ℕ → ℕ → ℕ → ℕ → Ram → Ram
fill_up zero i s c m = m
fill_up (suc k) i s c m = fill_up k (i + 1) s c (store (s + i) (c % 256) m)

pub memcpy : ℕ → ℕ → ℕ → Ram → Ram
unfolding copy_up
memcpy dest src n m = copy_up n 0 dest src m

pub memset : ℕ → ℕ → ℕ → Ram → Ram
unfolding fill_up
memset s c n m = fill_up n 0 s c m

pub memmove : ℕ → ℕ → ℕ → Ram → Ram
unfolding copy_up copy_down
memmove dest src n m =
    if ltb dest src
    then copy_up n 0 dest src m
    else if ltb src dest
    then copy_down n dest src m
    else m
