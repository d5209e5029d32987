-- ===== src/Pmm.antt =====
-- kernel/mem/pmm.cpp and the memory map of kernel/include/boot/requests.hpp. The memory map comes
-- from the bootloader and is an argument; an `uptr` wraps at 2 ^ 64.
pub mod Laws
pub mod Init
use radish_os.Prelude.{
  ℕ, zero, suc, ◌+◌, ◌*◌, ◌/◌, ◌%◌, Bool, true, false, List, [], ◌∷◌, ltb, if◌then◌else◌,
}
use radish_os.Prelude.Words.{u64_mod}
use radish_os.Outcome.{Outcome, ok, out_of_fuel, ◌>>=◌}
use radish_os.Bitmap
use radish_os.Bitmap.{StaticBitmap}
use radish_os.Allocator
use radish_os.Allocator.{StaticBitmapAllocator}

abbrev pub frame_bytes : ℕ
frame_bytes = 0x1000

abbrev pub max_memory : ℕ
max_memory = 0x40000000

abbrev pub max_frames : ℕ
max_frames = max_memory / frame_bytes

pub data MemmapEntryType : Type 0 where
  usable reserved acpi_reclaimable acpi_nvs bad_memory bootloader_reclaimable executable_and_modules
        framebuffer reserved_mapped :
      MemmapEntryType

pub record MemmapEntry : Type 0 where
  pub base : ℕ
  pub length : ℕ
  pub kind : MemmapEntryType

abbrev pub is_usable : MemmapEntryType → Bool
is_usable usable = true
is_usable _ = false

-- `for (addr = e.base; addr < e.base + e.length; addr += FRAME_BYTES)`, on fuel
pub clear_frames : ℕ → ℕ → ℕ → StaticBitmap → Outcome StaticBitmap
clear_frames zero addr end b = out_of_fuel
clear_frames (suc fuel) addr end b =
    let rest =
      clear_frames fuel ((addr + frame_bytes) % u64_mod) end
        (Bitmap.clear max_frames b (addr / frame_bytes)) in
    if ltb addr end then rest else ok b

-- one entry of the map: only a usable one is cleared
pub clear_entry : MemmapEntry → StaticBitmap → Outcome StaticBitmap
clear_entry e b =
    if is_usable e.kind
    then clear_frames (e.length / frame_bytes + 2) e.base ((e.base + e.length) % u64_mod) b
    else ok b

pub clear_entries : List MemmapEntry → StaticBitmap → Outcome StaticBitmap
clear_entries [] b = ok b
clear_entries (e ∷ es) b = do b' ← clear_entry e b; clear_entries es b'

-- the static allocator before `init`
abbrev pub boot_allocator : StaticBitmapAllocator
boot_allocator = record { bitmap = Bitmap.init max_frames; last_allocated = 0 }

pub init : List MemmapEntry → StaticBitmapAllocator → Outcome StaticBitmapAllocator
init entries a = do
  b ← clear_entries entries (Bitmap.set_all max_frames a.bitmap)
  ok (record a { bitmap = b })

pub allocate_frame : StaticBitmapAllocator → Outcome (ℕ × StaticBitmapAllocator)
allocate_frame a = do r ← Allocator.allocate max_frames 1 a; ok (r.0 * frame_bytes, r.1)

pub free_frame : ℕ → StaticBitmapAllocator → Outcome StaticBitmapAllocator
free_frame addr a = Allocator.free max_frames (addr / frame_bytes) a
