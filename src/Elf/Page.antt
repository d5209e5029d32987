-- ===== src/Elf/Page.antt =====
-- What a loaded page holds, byte by byte.
use radish_os.Prelude.{
  ℕ, ◌+◌, ◌-◌, ◌*◌, ◌≤◌, ◌<◌, ◌≡◌, refl, sym, ap, ◌∙◌, inl, inr, ◌⊎◌, Bool, true, false, ◌==◌, ltb,
  if◌then◌else◌, arith, Bool-cases,
}
use native.Mathlib.Nat.{div-add-mod', mod-lt}
use radish_os.Prelude.Words.{u64_mod}
use radish_os.Bytes.{page_size, page_align_down}
use radish_os.Memory.{Ram, memcpy, memset}
use radish_os.Memory.Copy.{within, memcpy_lem, memset_lem}
use radish_os.Elf.{Elf64Phdr, intra_offset, page_vaddr, src_off, to_copy, fill_page}

-- Neither the page nor the segment's part of the file goes round the end of the address space.
pub record Fits (phdr : Elf64Phdr) (j : ℕ) : Type 0 where
  pub page : page_align_down phdr.p_vaddr + j * page_size + page_size ≤ u64_mod
  pub source : phdr.p_offset + phdr.p_filesz + page_size ≤ u64_mod

abbrev start_in : Elf64Phdr → ℕ → ℕ
start_in phdr j = if j == 0 then intra_offset phdr else 0

-- Byte `o` of page `j` is copied if it is in the part of the segment that the file has, and from
-- where that byte is in the file.
record Part (phdr : Elf64Phdr) (j o : ℕ) : Type 0 where
  inside :
      within (start_in phdr j) (to_copy phdr j) o
      ≡ within phdr.p_vaddr phdr.p_filesz (page_vaddr phdr j + o)
  place :
      within (start_in phdr j) (to_copy phdr j) o ≡ true
      → src_off phdr j + (o - start_in phdr j)
        ≡ phdr.p_offset + (page_vaddr phdr j + o - phdr.p_vaddr)
  room : start_in phdr j + to_copy phdr j ≤ page_size
  low : 0 < to_copy phdr j → phdr.p_offset ≤ src_off phdr j
  high : 0 < to_copy phdr j → src_off phdr j + to_copy phdr j ≤ phdr.p_offset + phdr.p_filesz

part_lem : (phdr : Elf64Phdr) (j o : ℕ) → o < page_size → Fits phdr j → Part phdr j o
unfolding page_align_down
part_lem phdr j o small fits =
    let r = mod-lt phdr.p_vaddr {m = page_size} (omega arith) in
    let split = div-add-mod' phdr.p_vaddr page_size in
    let page = fits.page in
    let source = fits.source in
    elim (Bool-cases (j == 0)) [
      | inl first ↦ record {
        inside = ground (arith, r, split, page, source, first);
        place = λ h. ground (h, arith, r, split, page, source, first);
        room = ground (arith, r, split, page, source, first);
        low = λ h. ground (h, arith, r, split, page, source, first);
        high = λ h. ground (h, arith, r, split, page, source, first);
      }
      | inr later ↦ record {
        inside = ground (arith, r, split, page, source, later);
        place = λ h. ground (h, arith, r, split, page, source, later);
        room = ground (arith, r, split, page, source, later);
        low = λ h. ground (h, arith, r, split, page, source, later);
        high = λ h. ground (h, arith, r, split, page, source, later);
      }
    ]

cleared : (at o : ℕ) (ram : Ram) → o < page_size → memset at 0 page_size ram (at + o) ≡ 0
cleared at o ram small =
    let inside : within at page_size (at + o) ≡ true = ground arith in
    memset_lem at 0 page_size ram (at + o) ∙ rw inside refl

kept :
    (at a : ℕ) (ram : Ram) → (a < at) ⊎ (at + page_size ≤ a) → memset at 0 page_size ram a ≡ ram a
kept at a ram h =
    let outside : within at page_size a ≡ false = ground (arith, h) in
    memset_lem at 0 page_size ram a ∙ rw outside refl

-- A page is cleared, and `t` bytes are copied to its byte `d` from outside.
filled :
    (file at o d t so : ℕ) (ram : Ram)
    → o < page_size
    → d + t ≤ page_size
    → ((0 < t) → (at + page_size ≤ file + so) ⊎ (file + so + t ≤ at))
    → (if ltb 0 t
          then memcpy (at + d) (file + so) t (memset at 0 page_size ram)
          else memset at 0 page_size ram)
        (at + o)
      ≡ (if within d t o then ram (file + (so + (o - d))) else 0)
filled file at o d t so ram small room apart = elim (Bool-cases (ltb 0 t)) [
  | inr nothing ↦
      let outside : within d t o ≡ false = ground (arith, nothing) in
      rw (nothing, outside) (cleared at o ram small)
  | inl copies ↦
      let away = apart (ground (arith, copies)) in
      let copy =
        memcpy_lem (at + d) (file + so) t (memset at 0 page_size ram) (at + o)
          (ground (arith, away, room)) in
      let same : within (at + d) t (at + o) ≡ within d t o = ground arith in
      elim (Bool-cases (within d t o)) [
        | inl inside ↦
            let from : file + so + (at + o - (at + d)) ≡ file + (so + (o - d)) =
              ground (arith, inside) in
            rw (copies, inside)
              (copy
                ∙ rw (same, inside, from)
                    (kept at (file + (so + (o - d))) ram (ground (arith, inside, away, room))))
        | inr outside ↦ rw (copies, outside) (copy ∙ rw (same, outside) (cleared at o ram small))
      ]
]

apart_within :
    (file at off n so t : ℕ)
    → off ≤ so
    → so + t ≤ off + n
    → (at + page_size ≤ file + off) ⊎ (file + off + n ≤ at)
    → (at + page_size ≤ file + so) ⊎ (file + so + t ≤ at)
apart_within file at off n so t low high (inl h) = inl (omega (arith, low, h))
apart_within file at off n so t low high (inr h) = inr (omega (arith, high, h))

pub if_congr :
    (b b' : Bool) (x y : ℕ)
    → b ≡ b'
    → (b ≡ true → x ≡ y)
    → (if b then x else 0) ≡ (if b' then y else 0)
if_congr true b' x y e h = rw (sym e) (h refl)
if_congr false b' x y e h = rw (sym e) refl

-- Byte `o` of a page that is filled is the byte of the file for its address, where the segment has
-- one, and else 0, if the page and the file do not overlap in memory and nothing goes round the end
-- of the address space.
pub fill_page_lem :
    (file : ℕ) (phdr : Elf64Phdr) (j at o : ℕ) (ram : Ram)
    → o < page_size
    → Fits phdr j
    → (at + page_size ≤ file + phdr.p_offset) ⊎ (file + phdr.p_offset + phdr.p_filesz ≤ at)
    → let v = page_vaddr phdr j + o in
      fill_page file phdr j at ram (at + o) ≡ (
        if within phdr.p_vaddr phdr.p_filesz v
        then ram (file + (phdr.p_offset + (v - phdr.p_vaddr)))
        else 0)
unfolding fill_page
fill_page_lem file phdr j at o ram small fits apart =
    let part = part_lem phdr j o small fits in
    let apart_part : (0 < to_copy phdr j)
        → (at + page_size ≤ file + src_off phdr j) ⊎ (file + src_off phdr j + to_copy phdr j ≤ at) =
      λ h. apart_within file at _ _ _ _ (part.low h) (part.high h) apart in
    let f =
      filled file at o (start_in phdr j) (to_copy phdr j) (src_off phdr j) ram small part.room
        apart_part in
    f ∙ if_congr _ _ _ _ part.inside (λ h. ap (λ (a : ℕ). ram (file + a)) (part.place h))
