-- ===== src/Elf/Segment.antt =====
-- The pages of a segment, together.
use radish_os.Prelude.{
  ℕ, ◌+◌, ◌-◌, ◌/◌, ◌%◌, ◌≤◌, ◌<◌, ◌≡◌, ap, ◌∙◌, ◌⊎◌, ltb, if◌then◌else◌, arith,
}
use native.Mathlib.Nat.{div-add-mod', mod-lt}
use radish_os.Prelude.Words.{u64_mod}
use radish_os.Bytes.{page_size, page_align_down, page_div_up}
use radish_os.Memory.{Ram}
use radish_os.Memory.Copy.{within}
use radish_os.Elf.{Elf64Phdr, page_vaddr, segment_pages, fill_page}
use radish_os.Elf.Page.{Fits, if_congr, fill_page_lem}

-- the page of an address, counted from the first of the segment
abbrev pub page_of : Elf64Phdr → ℕ → ℕ
page_of phdr v = v / page_size - phdr.p_vaddr / page_size

-- Each address of a segment lies in one of the pages that `loadElf` counts for it, and the byte
-- there is the byte of the file for the address, or 0 behind the part of the segment that the file
-- has; if the segment and its part of the file end at least a page below 2 ^ 64, and the frame
-- does not overlap the file in memory.
pub segment_byte :
    (file : ℕ) (phdr : Elf64Phdr) (v at : ℕ) (ram : Ram)
    → phdr.p_vaddr ≤ v
    → v < phdr.p_vaddr + phdr.p_memsz
    → phdr.p_vaddr + phdr.p_memsz + page_size ≤ u64_mod
    → phdr.p_offset + phdr.p_filesz + page_size ≤ u64_mod
    → (at + page_size ≤ file + phdr.p_offset) ⊎ (file + phdr.p_offset + phdr.p_filesz ≤ at)
    → (page_of phdr v < segment_pages phdr)
      × (page_vaddr phdr (page_of phdr v) + v % page_size ≡ v)
      × (fill_page file phdr (page_of phdr v) at ram (at + v % page_size) ≡ (
          if ltb v (phdr.p_vaddr + phdr.p_filesz)
          then ram (file + (phdr.p_offset + (v - phdr.p_vaddr)))
          else 0))
unfolding page_align_down segment_pages page_div_up
segment_byte file phdr v at ram low high room source apart =
    let r = mod-lt phdr.p_vaddr {m = page_size} (omega arith) in
    let r' = mod-lt v {m = page_size} (omega arith) in
    let split = div-add-mod' phdr.p_vaddr page_size in
    let split' = div-add-mod' v page_size in
    let count : page_of phdr v < segment_pages phdr =
      omega (arith, r, r', split, split', low, high, room) in
    let address : page_vaddr phdr (page_of phdr v) + v % page_size ≡ v =
      omega (arith, r, r', split, split', low, high, room) in
    let fits : Fits phdr (page_of phdr v) = record {
      page = omega (arith, r, r', split, split', low, high, room);
      source = source;
    } in
    let byte = fill_page_lem file phdr (page_of phdr v) at (v % page_size) ram r' fits apart in
    let same : within phdr.p_vaddr phdr.p_filesz v ≡ ltb v (phdr.p_vaddr + phdr.p_filesz) =
      ground (arith, low) in
    (
      count,
      address,
      byte
          ∙ if_congr _ _ _ _ (ap (λ (a : ℕ). within phdr.p_vaddr phdr.p_filesz a) address ∙ same)
              (λ h. ap (λ (a : ℕ). ram (file + (phdr.p_offset + (a - phdr.p_vaddr)))) address),
    )
