-- ===== src/Pmm/Init.antt =====
-- What the memory map makes of the allocator: `Pmm::init`.
use radish_os.Prelude.{
  ℕ, zero, suc, ◌+◌, ◌*◌, ◌/◌, ◌%◌, ◌≤◌, ◌<◌, ◌≡◌, refl, ◌⊎◌, inl, inr, Bool, true, false, not,
  ◌&&◌, ◌||◌, List, [], ◌∷◌, ltb, leb, if◌then◌else◌, arith, Bool-cases, ◌∙◌, ap,
}
use radish_os.Prelude.Words.{u64_mod}
use radish_os.Outcome.{ok}
use radish_os.Bitmap
use radish_os.Bitmap.{StaticBitmap}
use radish_os.Bitmap.Laws.{IsSized, clear-IsSized, test-clear}
use radish_os.Bitmap.Fill.{test_fill, set_all-IsSized}
use radish_os.Allocator.{StaticBitmapAllocator}
use radish_os.Allocator.Laws.{used, IsValid}
use radish_os.Pmm.{
  frame_bytes, max_frames, MemmapEntry, MemmapEntryType, usable, is_usable, clear_frames,
  clear_entry, clear_entries, init,
}

-- the frames at addr, addr + 4096, ... below `end`
abbrev swept : ℕ → ℕ → ℕ → Bool
swept addr end j = leb (addr / frame_bytes) j && ltb (addr % frame_bytes + j * frame_bytes) end

-- `b` is `a` without the bits that `gone` names
record Cleared (gone : ℕ → Bool) (a b : StaticBitmap) : Type 0 where
  sized : IsSized max_frames b
  bits :
      (j : ℕ) → Bitmap.test max_frames b j ≡ (if gone j then false else Bitmap.test max_frames a j)

clear_frames_step :
    (fuel addr end : ℕ) (a : StaticBitmap)
    → end + frame_bytes ≤ u64_mod
    → ltb addr end ≡ true
    → clear_frames (suc fuel) addr end a
      ≡ clear_frames fuel (addr + frame_bytes) end (Bitmap.clear max_frames a (addr / frame_bytes))
unfolding clear_frames
clear_frames_step fuel addr end a small more =
    let wrap : (addr + frame_bytes) % u64_mod ≡ addr + frame_bytes = ground arith in rw (more, wrap)

clear_frames_lem :
    (fuel addr end : ℕ) (a : StaticBitmap)
    → IsSized max_frames a
    → end + frame_bytes ≤ u64_mod
    → addr < end + frame_bytes
    → end + frame_bytes ≤ addr + fuel * frame_bytes
    → (b : StaticBitmap) × (clear_frames fuel addr end a ≡ ok b) × Cleared (swept addr end) a b
unfolding clear_frames
clear_frames_lem zero addr end a v small near enough = absurd (omega arith)
clear_frames_lem (suc fuel) addr end a v small near enough = elim (Bool-cases (ltb addr end)) [
  | inr done ↦ (a, rw done, record { sized = v; bits = λ j. ground arith })
  | inl more ↦
      let (b, e, r) =
        clear_frames_lem fuel (addr + frame_bytes) end
          (Bitmap.clear max_frames a (addr / frame_bytes)) (clear-IsSized max_frames _ v) small
          (ground arith) (omega arith) in
      (
        b,
        clear_frames_step fuel addr end a small more ∙ e,
        record {
          sized = r.sized;
          bits = λ j. ground (arith, r.bits j, test-clear max_frames a (addr / frame_bytes) j v);
        },
      )
]

-- What is asked of a usable region: it begins with a page, and a page fits behind it.
pub record IsPaged (e : MemmapEntry) : Type 0 where
  pub aligned : e.base % frame_bytes ≡ 0
  pub fits : e.base + e.length + frame_bytes ≤ u64_mod

abbrev pub AllPaged : List MemmapEntry → Type 0
AllPaged [] = Unit {0}
AllPaged (e ∷ es) = (e.kind ≡ usable → IsPaged e) × AllPaged es

abbrev AllTested : List MemmapEntry → Type 0
AllTested [] = Unit {0}
AllTested (e ∷ es) = (is_usable e.kind ≡ true → IsPaged e) × AllTested es

-- a usable region of the map holds the address
abbrev holds : MemmapEntry → ℕ → Bool
holds e addr = is_usable e.kind && (leb e.base addr && ltb addr (e.base + e.length))

abbrev some_holds : List MemmapEntry → ℕ → Bool
some_holds [] addr = false
some_holds (e ∷ es) addr = holds e addr || some_holds es addr

swept-holds :
    (base end j : ℕ)
    → base % frame_bytes ≡ 0
    → swept base end j ≡ (leb base (j * frame_bytes) && ltb (j * frame_bytes) end)
swept-holds base end j h = ground arith

clear_usable :
    (e : MemmapEntry) (a : StaticBitmap)
    → IsSized max_frames a
    → IsPaged e
    → (b : StaticBitmap) × (clear_frames
          (e.length / frame_bytes + 2)
          e.base
          ((e.base + e.length) % u64_mod)
          a
        ≡ ok b)
      × Cleared (λ j. leb e.base (j * frame_bytes) && ltb (j * frame_bytes) (e.base + e.length)) a b
clear_usable e a v p =
    let fits : e.base + e.length + frame_bytes ≤ u64_mod = p.fits in
    let wrap : (e.base + e.length) % u64_mod ≡ e.base + e.length = omega arith in
    let (b, q, r) =
      clear_frames_lem (e.length / frame_bytes + 2) e.base (e.base + e.length) a v p.fits
        (omega arith) (omega arith) in
    (
      b,
      ap (λ (t : ℕ). clear_frames (e.length / frame_bytes + 2) e.base t a) wrap ∙ q,
      record {
        sized = r.sized;
        bits = λ j. rw (← swept-holds e.base (e.base + e.length) j p.aligned) (r.bits j);
      },
    )

clear_entry_lem :
    (e : MemmapEntry) (a : StaticBitmap)
    → IsSized max_frames a
    → (is_usable e.kind ≡ true → IsPaged e)
    → (b : StaticBitmap) × (clear_entry e a ≡ ok b) × Cleared (λ j. holds e (j * frame_bytes)) a b
unfolding clear_entry
clear_entry_lem e a v p = elim (Bool-cases (is_usable e.kind)) [
  | inr other ↦ (a, rw other, record { sized = v; bits = λ j. rw other refl })
  | inl free ↦
      let (b, q, r) = clear_usable e a v (p free) in
      (b, rw free q, record { sized = r.sized; bits = λ j. rw free (r.bits j) })
]

clear_entries_lem :
    (es : List MemmapEntry) (a : StaticBitmap)
    → IsSized max_frames a
    → AllTested es
    → (b : StaticBitmap) × (clear_entries es a ≡ ok b)
      × Cleared (λ j. some_holds es (j * frame_bytes)) a b
unfolding clear_entries
clear_entries_lem [] a v p = (a, refl, record { sized = v; bits = λ j. refl })
clear_entries_lem (e ∷ es) a v p =
    let (b, q, r) = clear_entry_lem e a v p.0 in
    let (c, q', r') = clear_entries_lem es b r.sized p.1 in
    (c, rw q q', record { sized = r'.sized; bits = λ j. ground (arith, r.bits j, r'.bits j) })

-- a usable region of the map has the address
abbrev pub InUsable : List MemmapEntry → ℕ → Type 0
InUsable [] addr = ⊥
InUsable (e ∷ es) addr =
    ((e.kind ≡ usable) × (e.base ≤ addr) × (addr < e.base + e.length)) ⊎ InUsable es addr

is_usable→usable : (k : MemmapEntryType) → is_usable k ≡ true → k ≡ usable
is_usable→usable usable h = refl
is_usable→usable k h = ground (arith, h)

paged_tests : (es : List MemmapEntry) → AllPaged es → AllTested es
paged_tests [] p = tt
paged_tests (e ∷ es) p = (λ h. p.0 (is_usable→usable e.kind h), paged_tests es p.1)

some_holds→InUsable :
    (es : List MemmapEntry) (addr : ℕ) → some_holds es addr ≡ true → InUsable es addr
some_holds→InUsable [] addr h = ground (arith, h)
some_holds→InUsable (e ∷ es) addr h = elim (Bool-cases (holds e addr)) [
  | inl here ↦
      inl
        (is_usable→usable e.kind (ground (arith, here)), ground (arith, here), ground (arith, here))
  | inr other ↦ inr (some_holds→InUsable es addr (ground (arith, h, other)))
]

InUsable→some_holds :
    (es : List MemmapEntry) (addr : ℕ) → InUsable es addr → some_holds es addr ≡ true
InUsable→some_holds [] addr h = absurd h
InUsable→some_holds (e ∷ es) addr (inl (k, low, high)) =
    let test : is_usable e.kind ≡ true = rw k refl in ground (arith, test, low, high)
InUsable→some_holds (e ∷ es) addr (inr h) = ground (arith, InUsable→some_holds es addr h)

-- `init` ends on a memory map whose usable entries begin at a multiple of 4096 and end at least 4096
-- below 2 ^ 64. Afterwards the allocator is valid, and a frame below 1 GiB is free
-- exactly when its address lies in a usable region of the memory map.
pub init_lem :
    (es : List MemmapEntry) (a : StaticBitmapAllocator)
    → IsValid max_frames a
    → AllPaged es
    → (b : StaticBitmapAllocator) × (init es a ≡ ok b)
      × IsValid max_frames b
      × ((j : ℕ)
          → j < max_frames
          → ((used max_frames b j ≡ false) → InUsable es (j * frame_bytes))
            × (InUsable es (j * frame_bytes) → (used max_frames b j ≡ false)))
unfolding init
init_lem es a v p =
    let (b, q, r) =
      clear_entries_lem es _ (set_all-IsSized max_frames _ v.bits) (paged_tests es p) in
    (
      record a { bitmap = b },
      rw q,
      record { bits = r.sized; cursor = v.cursor },
      λ j h.
          let bit : Bitmap.test max_frames b j ≡ not (some_holds es (j * frame_bytes)) =
            ground (arith, r.bits j, test_fill max_frames a.bitmap j v.bits) in
          (
            λ free. some_holds→InUsable es (j * frame_bytes) (ground (arith, free, bit)),
            λ in_region.
                let held = InUsable→some_holds es (j * frame_bytes) in_region in
                ground (arith, held, bit),
          ),
    )
