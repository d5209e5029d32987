-- ===== src/Elf.antt =====
-- kernel/proc/elf.cpp: the check of the header, and the loading of segments. The file lies in a
-- buffer of the same memory, and its program headers are arguments; the frames and the page tables
-- are an `AddressSpace`. A `usize` wraps at 2 ^ 64.
pub mod Page
pub mod Segment
mod Tests
use radish_os.Prelude.{
  ℕ, zero, suc, ◌+◌, ◌-◌, ◌*◌, ◌/◌, ◌%◌, ◌^◌, Bool, true, false, ◌&&◌, not, Option, none, some,
  List, [], ◌∷◌, ◌==◌, ltb, leb, if◌then◌else◌,
}
use radish_os.Prelude.Words.{u64_mod, add64, sub64}
use radish_os.Prelude.Int.{ℤ, pos, negsuc}
use radish_os.Outcome.{Outcome, ok, ◌>>=◌}
use radish_os.Bytes.{page_size, page_align_down, page_div_up}
use radish_os.Memory.{Ram, memcpy, memset}

pub record Elf64Ehdr : Type 0 where
  pub e_ident : ℕ → ℕ
  pub e_type : ℕ
  pub e_version : ℕ
  pub e_entry : ℕ

pub record Elf64Phdr : Type 0 where
  pub p_type : ℕ
  pub p_flags : ℕ
  pub p_offset : ℕ
  pub p_vaddr : ℕ
  pub p_filesz : ℕ
  pub p_memsz : ℕ

-- 0, or the number of the error
abbrev pub elf_check : Elf64Ehdr → ℤ
elf_check hdr =
    if not (
      hdr.e_ident 0 == 0x7f
      && hdr.e_ident 1 == b'E'
      && hdr.e_ident 2 == b'L'
      && hdr.e_ident 3 == b'F')
    then negsuc 0
    else if not (hdr.e_type == 2)
    then negsuc 1
    else if not (hdr.e_version == 1)
    then negsuc 2
    else pos 0

-- `vaddr & (PAGE_SIZE - 1)`
abbrev pub intra_offset : Elf64Phdr → ℕ
intra_offset phdr = phdr.p_vaddr % page_size

abbrev pub segment_pages : Elf64Phdr → ℕ
unfolding page_div_up
segment_pages phdr = page_div_up (add64 (intra_offset phdr) phdr.p_memsz)

abbrev pub page_vaddr : Elf64Phdr → ℕ → ℕ
unfolding page_align_down
page_vaddr phdr j = add64 (page_align_down phdr.p_vaddr) (j * page_size % u64_mod)

-- ReadExecUser, or ReadWriteUser with NoExec
abbrev pub page_flag : ℕ → ℕ
page_flag pflags = if pflags % 2 == 1 then 0x05 else 0x07 + 2 ^ 63

abbrev pub src_off : Elf64Phdr → ℕ → ℕ
src_off phdr j =
    sub64 (add64 phdr.p_offset (j * page_size % u64_mod)) (if j == 0 then 0 else intra_offset phdr)

abbrev pub min : ℕ → ℕ → ℕ
min a b = if ltb a b then a else b

abbrev pub to_copy : Elf64Phdr → ℕ → ℕ
to_copy phdr j =
    let rel_off = sub64 (j * page_size % u64_mod) (intra_offset phdr) in
    if j == 0
    then min (page_size - intra_offset phdr) phdr.p_filesz
    else if ltb rel_off phdr.p_filesz
    then min page_size (phdr.p_filesz - rel_off)
    else 0

-- The bytes of page `j` at address `at`: zeros, then what the file has for the page, `file` being
-- the address of the buffer with it.
unfoldable pub fill_page : ℕ → Elf64Phdr → ℕ → ℕ → Ram → Ram
fill_page file phdr j at ram =
    let cleared = memset at 0 page_size ram in
    let dest = at + (if j == 0 then intra_offset phdr else 0) in
    if ltb 0 (to_copy phdr j)
    then memcpy dest (file + src_off phdr j) (to_copy phdr j) cleared
    else cleared

-- what a loader uses of the frame allocator and of the page tables it loads into
pub record AddressSpace : Type 1 where
  pub Vm : Type 0
  pub allocate_frame : Vm → Outcome (ℕ × Vm)
  -- `mapPage(vaddr, paddr, flags)`
  pub map_page : ℕ → ℕ → ℕ → Vm → Outcome Vm

module _ (space : AddressSpace) (hhdm file : ℕ) where
  open space use {Vm, allocate_frame, map_page}

  -- the round of the inner loop for page `j`
  pub load_page : Elf64Phdr → ℕ → Vm × Ram → Outcome (Vm × Ram)
  unfolding fill_page
  load_page phdr j s = do
    frame ← allocate_frame s.0
    vm ← map_page (page_vaddr phdr j) frame.0 (page_flag phdr.p_flags) frame.1
    ok (vm, fill_page file phdr j (add64 hhdm frame.0) s.1)

  -- the inner loop, for the pages from `j` that are left
  pub load_pages : ℕ → Elf64Phdr → ℕ → Vm × Ram → Outcome (Vm × Ram)
  unfolding load_page
  load_pages zero phdr j s = ok s
  load_pages (suc k) phdr j s = do s' ← load_page phdr j s; load_pages k phdr (j + 1) s'

  -- the loop over the program headers, with the end of the highest segment so far
  pub load_segments : List Elf64Phdr → ℕ → Vm × Ram → Outcome (ℕ × Vm × Ram)
  unfolding load_pages
  load_segments [] highest s = ok (highest, s.0, s.1)
  load_segments (phdr ∷ phdrs) highest s =
      let segment_end = add64 phdr.p_vaddr phdr.p_memsz in
      if not (phdr.p_type == 1) then load_segments phdrs highest s else do
        s' ← load_pages (segment_pages phdr) phdr 0 s
        load_segments phdrs (if ltb highest segment_end then segment_end else highest) s'

  -- The result with the entry address and the highest address, if the header is valid.
  pub load_elf : Elf64Ehdr → List Elf64Phdr → Vm × Ram → Outcome (ℤ × Option (ℕ × ℕ) × Vm × Ram)
  unfolding load_segments
  load_elf hdr phdrs s = elim (elf_check hdr) [
    | pos zero ↦ do r ← load_segments phdrs 0 s; ok (pos 0, some (hdr.e_entry, r.0), r.1, r.2)
    | _ ↦ ok (negsuc 0, none, s.0, s.1)
  ]
