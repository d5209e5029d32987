-- ===== src/Pmm/Laws.antt =====
-- Physical frames: what `allocateFrame` hands out and `freeFrame` takes back.
use radish_os.Prelude.{
  ℕ, ◌+◌, ◌*◌, ◌/◌, ◌%◌, ◌≤◌, ◌<◌, ◌≡◌, ◌⊎◌, inl, inr, Bool, true, false, ◌==◌, if◌then◌else◌,
  arith,
}
use radish_os.Outcome.{ok, panic, out_of_memory, double_free}
use radish_os.Allocator.{StaticBitmapAllocator}
use radish_os.Allocator.Laws.{
  used, free_count, IsValid, Takes, Releases, allocate_single, free-Releases, free_count-Takes,
}
use radish_os.Pmm.{frame_bytes, max_frames, max_memory, allocate_frame, free_frame}

-- the frame at a physical address is in use
abbrev pub in_use : StaticBitmapAllocator → ℕ → Bool
in_use a addr = used max_frames a (addr / frame_bytes)

-- `addr` is a frame of `a` that was free and is in use in `b`; nothing else differs
pub record Granted (a b : StaticBitmapAllocator) (addr : ℕ) : Type 0 where
  pub aligned : addr % frame_bytes ≡ 0
  pub below : addr + frame_bytes ≤ max_memory
  pub was_free : in_use a addr ≡ false
  pub now_used :
      (other : ℕ)
      → in_use b other
        ≡ (if addr / frame_bytes == other / frame_bytes then true else in_use a other)
  pub counted : free_count max_frames b + 1 ≡ free_count max_frames a
  pub valid : IsValid max_frames b

index_of : (r : ℕ) → r * frame_bytes / frame_bytes ≡ r
index_of r = omega arith

Takes-Granted :
    (a b : StaticBitmapAllocator)
    → Takes max_frames a b
    → Granted a b (b.last_allocated * frame_bytes)
Takes-Granted a b t = record {
  aligned = omega arith;
  below = omega (arith, t.valid.cursor);
  was_free = rw (index_of b.last_allocated) t.was_free;
  now_used = λ other. rw (index_of b.last_allocated) (t.now_used (other / frame_bytes));
  counted = free_count-Takes max_frames a b t;
  valid = t.valid;
}

-- With a valid allocator `allocateFrame` returns the address of a frame that was free, a multiple
-- of 4096 below 1 GiB, takes this frame only and leaves the allocator valid; or it panics, and
-- then no frame is free.
pub allocate_frame_lem :
    (a : StaticBitmapAllocator)
    → IsValid max_frames a
    → ((addr : ℕ) × (b : StaticBitmapAllocator) × (allocate_frame a ≡ ok (addr, b))
        × Granted a b addr)
      ⊎ ((allocate_frame a ≡ panic out_of_memory)
          × ((addr : ℕ) → addr < max_memory → in_use a addr ≡ true))
unfolding allocate_frame
allocate_frame_lem a v = elim (allocate_single max_frames a v) [
  | inl (b, e, t) ↦ inl (b.last_allocated * frame_bytes, b, rw e, Takes-Granted a b t)
  | inr (e, all) ↦ inr (rw e, λ addr h. all (addr / frame_bytes) (omega arith))
]

-- With a valid allocator `freeFrame` gives back the frame that holds the address if it is in use,
-- and panics if it is not.
pub free_frame_lem :
    (a : StaticBitmapAllocator) (addr : ℕ)
    → IsValid max_frames a
    → ((b : StaticBitmapAllocator) × (free_frame addr a ≡ ok b)
        × (in_use a addr ≡ true)
        × Releases max_frames (addr / frame_bytes) a b)
      ⊎ ((free_frame addr a ≡ panic double_free) × (in_use a addr ≡ false))
unfolding free_frame
free_frame_lem a addr v = elim (free-Releases max_frames (addr / frame_bytes) a v) [
  | inl (b, e, r) ↦ inl (b, e, r.was_used, r)
  | inr (n, e) ↦ inr (e, n)
]
