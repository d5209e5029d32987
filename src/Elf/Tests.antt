-- ===== src/Elf/Tests.antt =====
-- Small executables.
use radish_os.Prelude.{
  ℕ, ◌+◌, ◌*◌, ◌%◌, ◌<◌, ◌≡◌, refl, inl, none, some, [], ◌∷◌, ltb, if◌then◌else◌, arith,
}
use radish_os.Prelude.Int.{pos, negsuc}
use radish_os.Outcome.{ok}
use radish_os.Memory.{Ram}
use radish_os.Elf.{
  Elf64Ehdr, Elf64Phdr, AddressSpace, page_vaddr, segment_pages, fill_page, load_pages,
  load_segments, load_elf,
}
use radish_os.Elf.Segment.{segment_byte}

abbrev text_segment : Elf64Phdr
text_segment = record {
  p_type = 1;
  p_flags = 5;
  p_offset = 0x1000;
  p_vaddr = 0x400010;
  p_filesz = 0x1020;
  p_memsz = 0x3000;
}

abbrev memory : Ram
memory a = a % 251

segment_byte_example :
    (1 < segment_pages text_segment)
    × (page_vaddr text_segment 1 + 5 ≡ 0x401005)
    × (fill_page 0x100000 text_segment 1 0x9000 memory (0x9000 + 5) ≡ (0x100000 + 0x1ff5) % 251)
segment_byte_example =
    segment_byte 0x100000 text_segment 0x401005 0x9000 memory (omega arith) (omega arith)
      (omega arith) (omega arith) (inl (omega arith))

-- frames from a counter, and no page tables
abbrev counted : AddressSpace
counted = record {
  Vm = ℕ;
  allocate_frame = λ n. ok (n * 0x1000, n + 1);
  map_page = λ vaddr frame flag n. ok n;
}

abbrev header : (ℕ → ℕ) → Elf64Ehdr
header ident = record { e_ident = ident; e_type = 2; e_version = 1; e_entry = 0x400020 }

abbrev magic : ℕ → ℕ
magic n = if ltb n 1 then 0x7f else if ltb n 2 then b'E' else if ltb n 3 then b'L' else b'F'

abbrev empty_at : ℕ → Elf64Phdr
empty_at vaddr = record {
  p_type = 1;
  p_flags = 6;
  p_offset = 0;
  p_vaddr = vaddr;
  p_filesz = 0;
  p_memsz = 0;
}

-- The highest end counts, a segment that is not loaded does not, and a wrong header is refused.
headers :
    (load_elf counted 0 0
        (header magic)
        (empty_at 0x7000 ∷ empty_at 0x5000 ∷ record (empty_at 0x9000) { p_type = 2 } ∷ [])
        (3, memory)
      ≡ ok (pos 0, some (0x400020, 0x7000), 3, memory))
    × (load_elf counted 0 0 (header memory) [] (3, memory) ≡ ok (negsuc 0, none, 3, memory))
unfolding load_elf load_segments load_pages segment_pages
headers = (refl, refl)
