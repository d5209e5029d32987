-- ===== src/Bitmap.antt =====
-- kernel/include/lib/bitmap.hpp: `StaticBitmap<N>`, N bits in words of 64. The template argument
-- is the first argument of each method.
pub mod Laws
pub mod Fill
use radish_os.Prelude.{
  ℕ, zero, suc, ◌+◌, ◌-◌, ◌/◌, ◌%◌, ◌^◌, ◌≡◌, Bool, false, not, List, ltb, ◌==◌, if◌then◌else◌,
  bit_and, bit_or, get_or, replicate, set as set_elem,
}

-- sizeof(u64) * 8
abbrev pub bits_per_word : ℕ
bits_per_word = 64

abbrev pub word_count : ℕ → ℕ
word_count n = (n + bits_per_word - 1) / bits_per_word

pub record StaticBitmap : Type 0 where
  pub words : List ℕ

-- `u64 data[WORDS]{}`
pub init : ℕ → StaticBitmap
init n = record { words = replicate (word_count n) 0 }

abbrev get_index : ℕ → ℕ
get_index bit = bit / bits_per_word

abbrev get_mask : ℕ → ℕ
get_mask bit = 2 ^ (bit % bits_per_word)

-- `~x` of a u64
abbrev complement : ℕ → ℕ
complement x = 2 ^ 64 - 1 - x

abbrev word : StaticBitmap → ℕ → ℕ
word self bit = get_or self.words (get_index bit) 0

unfoldable pub set : ℕ → StaticBitmap → ℕ → StaticBitmap
set n self bit =
    if ltb bit n
    then record {
      words = set_elem self.words (get_index bit) (bit_or (word self bit) (get_mask bit));
    }
    else self

pub clear : ℕ → StaticBitmap → ℕ → StaticBitmap
clear n self bit =
    if ltb bit n
    then record {
      words =
          set_elem self.words (get_index bit) (bit_and (word self bit) (complement (get_mask bit)));
    }
    else self

unfoldable pub test : ℕ → StaticBitmap → ℕ → Bool
test n self bit = if ltb bit n then not (bit_and (word self bit) (get_mask bit) == 0) else false

-- the rounds of `for (usize i = 0; i < N; i++)` that are left, and the counter
set_from : ℕ → ℕ → ℕ → StaticBitmap → StaticBitmap
set_from n zero i self = self
set_from n (suc k) i self = set_from n k (i + 1) (set n self i)

pub set_all : ℕ → StaticBitmap → StaticBitmap
set_all n self = set_from n n 0 self

clear_from : ℕ → ℕ → ℕ → StaticBitmap → StaticBitmap
clear_from n zero i self = self
clear_from n (suc k) i self = clear_from n k (i + 1) (clear n self i)

pub clear_all : ℕ → StaticBitmap → StaticBitmap
clear_all n self = clear_from n n 0 self

pub size : ℕ → ℕ
size n = n
