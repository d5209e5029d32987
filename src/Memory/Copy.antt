-- ===== src/Memory/Copy.antt =====
-- The copies of kernel/lib/memory.cpp against the copy of all bytes at once.
use radish_os.Prelude.{
  ℕ, zero, suc, ◌+◌, ◌-◌, ◌%◌, ◌≤◌, ◌≡◌, refl, sym, ◌∙◌, inl, inr, ◌⊎◌, Bool, true, false, ◌&&◌,
  ◌==◌, ltb, leb, if◌then◌else◌, arith, Bool-cases,
}
use radish_os.Memory.{Ram, copy_up, copy_down, fill_up, memcpy, memset, memmove}

-- whether `a` is one of the `n` addresses from `s`
abbrev pub within : ℕ → ℕ → ℕ → Bool
within s n a = leb s a && ltb a (s + n)

-- The bytes of the source, as they were, at the destination.
abbrev pub copied : ℕ → ℕ → ℕ → Ram → Ram
copied dest src n m a = if within dest n a then m (src + (a - dest)) else m a

copy_up_lem :
    (k i dest src : ℕ) (m : Ram) (a : ℕ)
    → (dest ≤ src) ⊎ (src + i + k ≤ dest + i)
    → copy_up k i dest src m a ≡ (if within (dest + i) k a then m (src + (a - dest)) else m a)
unfolding copy_up
copy_up_lem zero i dest src m a h =
    let none : within (dest + i) 0 a ≡ false = ground arith in rw none refl
copy_up_lem (suc k) i dest src m a h = elim (Bool-cases (within (dest + (i + 1)) k a)) [
  | inl later ↦
      let all : within (dest + i) (suc k) a ≡ true = ground (arith, later) in
      let kept : (src + (a - dest) == dest + i) ≡ false = ground (arith, later, h) in
      copy_up_lem k (i + 1) dest src _ a (ground (arith, h)) ∙ rw (later, all, kept) refl
  | inr other ↦ elim (Bool-cases (a == dest + i)) [
    | inl here ↦
        let all : within (dest + i) (suc k) a ≡ true = ground (arith, here) in
        let read : src + i ≡ src + (a - dest) = ground (arith, here) in
        copy_up_lem k (i + 1) dest src _ a (ground (arith, h)) ∙ rw (other, all, here, read) refl
    | inr away ↦
        let all : within (dest + i) (suc k) a ≡ false = ground (arith, other, away) in
        copy_up_lem k (i + 1) dest src _ a (ground (arith, h)) ∙ rw (other, all, away) refl
  ]
]

copy_down_lem :
    (i dest src : ℕ) (m : Ram) (a : ℕ)
    → src ≤ dest
    → copy_down i dest src m a ≡ copied dest src i m a
unfolding copy_down
copy_down_lem zero dest src m a h =
    let none : within dest 0 a ≡ false = ground arith in rw none refl
copy_down_lem (suc i) dest src m a h = elim (Bool-cases (within dest i a)) [
  | inl lower ↦
      let all : within dest (suc i) a ≡ true = ground (arith, lower) in
      let kept : (src + (a - dest) == dest + i) ≡ false = ground (arith, lower, h) in
      copy_down_lem i dest src _ a h ∙ rw (lower, all, kept) refl
  | inr other ↦ elim (Bool-cases (a == dest + i)) [
    | inl here ↦
        let all : within dest (suc i) a ≡ true = ground (arith, here) in
        let read : src + i ≡ src + (a - dest) = ground (arith, here) in
        copy_down_lem i dest src _ a h ∙ rw (other, all, here, read) refl
    | inr away ↦
        let all : within dest (suc i) a ≡ false = ground (arith, other, away) in
        copy_down_lem i dest src _ a h ∙ rw (other, all, away) refl
  ]
]

fill_up_lem :
    (k i s c : ℕ) (m : Ram) (a : ℕ)
    → fill_up k i s c m a ≡ (if within (s + i) k a then c % 256 else m a)
unfolding fill_up
fill_up_lem zero i s c m a = let none : within (s + i) 0 a ≡ false = ground arith in rw none refl
fill_up_lem (suc k) i s c m a = elim (Bool-cases (within (s + (i + 1)) k a)) [
  | inl later ↦
      let all : within (s + i) (suc k) a ≡ true = ground (arith, later) in
      fill_up_lem k (i + 1) s c _ a ∙ rw (later, all) refl
  | inr other ↦ elim (Bool-cases (a == s + i)) [
    | inl here ↦
        let all : within (s + i) (suc k) a ≡ true = ground (arith, here) in
        fill_up_lem k (i + 1) s c _ a ∙ rw (other, all, here) refl
    | inr away ↦
        let all : within (s + i) (suc k) a ≡ false = ground (arith, other, away) in
        fill_up_lem k (i + 1) s c _ a ∙ rw (other, all, away) refl
  ]
]

copy_up_start :
    (dest src n : ℕ) (m : Ram) (a : ℕ)
    → (dest ≤ src) ⊎ (src + n ≤ dest)
    → copy_up n 0 dest src m a ≡ copied dest src n m a
copy_up_start dest src n m a h =
    let start : within (dest + 0) n a ≡ within dest n a = ground arith in
    rw (sym start) (copy_up_lem n 0 dest src m a (ground (arith, h)))

-- Wherever source and destination are, also when they overlap, after `memmove` the destination has
-- the bytes that the source had before, and every other byte is as it was.
pub memmove_lem :
    (dest src n : ℕ) (m : Ram) (a : ℕ) → memmove dest src n m a ≡ copied dest src n m a
unfolding memmove
memmove_lem dest src n m a = elim (Bool-cases (ltb dest src)) [
  | inl below ↦ rw below (copy_up_start dest src n m a (ground (arith, below)))
  | inr other ↦ elim (Bool-cases (ltb src dest)) [
    | inl above ↦ rw (other, above) (copy_down_lem n dest src m a (ground (arith, above)))
    | inr same ↦ elim (Bool-cases (within dest n a)) [
      | inl inside ↦
          let read : src + (a - dest) ≡ a = ground (arith, other, same, inside) in
          rw (other, same, inside, read) refl
      | inr outside ↦ rw (other, same, outside) refl
    ]
  ]
]

pub memcpy_lem :
    (dest src n : ℕ) (m : Ram) (a : ℕ)
    → (dest + n ≤ src) ⊎ (src + n ≤ dest)
    → memcpy dest src n m a ≡ copied dest src n m a
unfolding memcpy
memcpy_lem dest src n m a h = copy_up_start dest src n m a (ground (arith, h))

pub memset_lem :
    (s c n : ℕ) (m : Ram) (a : ℕ) → memset s c n m a ≡ (if within s n a then c % 256 else m a)
unfolding memset
memset_lem s c n m a =
    let start : within (s + 0) n a ≡ within s n a = ground arith in
    rw (sym start) (fill_up_lem n 0 s c m a)
