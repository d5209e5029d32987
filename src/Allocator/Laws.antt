-- ===== src/Allocator/Laws.antt =====
-- What `allocate` and `free` promise, over the bits that are in use.
use radish_os.Prelude.{
  ℕ, zero, suc, ◌+◌, ◌≤◌, ◌<◌, ◌≡◌, refl, ◌⊎◌, inl, inr, Bool, true, false, ◌==◌, if◌then◌else◌,
  arith, sym, Bool-cases, ==_iff,
}
use radish_os.Prelude.Count.{count_false, count_false_turn, count_false_zero}
use radish_os.Outcome.{ok, panic, out_of_memory, double_free}
use radish_os.Bitmap
use radish_os.Bitmap.Laws.{IsSized, set-IsSized, clear-IsSized, test-set, test-clear, test-lt}
use radish_os.Allocator.{StaticBitmapAllocator, take, allocate_one, allocate_loop, allocate, free}
use radish_os.Allocator.Search.{at_step, FirstClear, probe_finds}

abbrev pub used : ℕ → StaticBitmapAllocator → ℕ → Bool
used size a i = Bitmap.test size a.bitmap i

abbrev pub free_count : ℕ → StaticBitmapAllocator → ℕ
free_count size a = count_false size (used size a)

pub record IsValid (size : ℕ) (a : StaticBitmapAllocator) : Type 0 where
  pub bits : IsSized size a.bitmap
  pub cursor : a.last_allocated < size

-- `b` is `a` with one more bit in use, the one that `last_allocated` names
pub record Takes (size : ℕ) (a b : StaticBitmapAllocator) : Type 0 where
  pub was_free : used size a b.last_allocated ≡ false
  pub now_used : (j : ℕ) → used size b j ≡ (if b.last_allocated == j then true else used size a j)
  pub valid : IsValid size b

at_step-lt : (size start d : ℕ) → start < size → d < size → at_step size start d < size
at_step-lt size start d h k = ground arith

taken : (size : ℕ) (a : StaticBitmapAllocator) (d : ℕ) → StaticBitmapAllocator
taken size a d = record {
  bitmap = Bitmap.set size a.bitmap (at_step size a.last_allocated d);
  last_allocated = at_step size a.last_allocated d;
}

taken-Takes :
    (size : ℕ) (a : StaticBitmapAllocator) (d : ℕ)
    → IsValid size a
    → FirstClear size a.bitmap a.last_allocated d
    → Takes size a (taken size a d)
unfolding taken
taken-Takes size a d v f = record {
  was_free = f.clear;
  now_used = λ j. ground (
    arith,
    test-set size a.bitmap (at_step size a.last_allocated d) j v.bits,
    at_step-lt size a.last_allocated d v.cursor f.inside,
  );
  valid = record {
    bits = set-IsSized size _ v.bits;
    cursor = at_step-lt size a.last_allocated d v.cursor f.inside;
  };
}

-- In a valid allocator one round of `allocate` always ends: it takes the first clear bit from
-- `last_allocated` on, going round, or, where all bits are in use, panics.
pub allocate_one_lem :
    (size : ℕ) (a : StaticBitmapAllocator)
    → IsValid size a
    → ((b : StaticBitmapAllocator) × (d : ℕ) × (allocate_one size a ≡ ok b)
        × (b.last_allocated ≡ at_step size a.last_allocated d)
        × FirstClear size a.bitmap a.last_allocated d
        × Takes size a b)
      ⊎ ((allocate_one size a ≡ panic out_of_memory) × ((i : ℕ) → i < size → used size a i ≡ true))
unfolding allocate_one take taken
allocate_one_lem size a v = elim (probe_finds size a.bitmap a.last_allocated v.cursor) [
  | inl (d, e, f) ↦ inl (taken size a d, d, rw e, refl, f, taken-Takes size a d v f)
  | inr (e, all) ↦ inr (rw e, all)
]

pub free_count-Takes :
    (size : ℕ) (a b : StaticBitmapAllocator)
    → Takes size a b
    → free_count size b + 1 ≡ free_count size a
free_count-Takes size a b t =
    count_false_turn size b.last_allocated (used size a) (used size b) t.valid.cursor t.was_free
      (ground (arith, t.now_used b.last_allocated)) (λ j h other. ground (arith, t.now_used j))

-- `allocate n` succeeds exactly when n bits are free, and takes n of them: it makes n bits used
-- that were free, and keeps the ones that were in use. `last_allocated` is one of them.
pub record TakesMany (size n : ℕ) (a b : StaticBitmapAllocator) : Type 0 where
  pub counted : free_count size b + n ≡ free_count size a
  pub kept : (j : ℕ) → used size a j ≡ true → used size b j ≡ true
  pub named : 0 < n → (used size a b.last_allocated ≡ false) × (used size b b.last_allocated ≡ true)
  pub valid : IsValid size b

allocate_none :
    (size n : ℕ) (a b : StaticBitmapAllocator) → n ≡ 0 → allocate_loop size n a ≡ ok b → b ≡ a
unfolding allocate_loop
allocate_none size n a b e h = let stop : allocate_loop size n a ≡ ok a = rw e refl in cc

allocate_loop_lem :
    (size n : ℕ) (a : StaticBitmapAllocator)
    → IsValid size a
    → ((n ≤ free_count size a)
        × (b : StaticBitmapAllocator) × (allocate_loop size n a ≡ ok b)
        × TakesMany size n a b)
      ⊎ ((free_count size a < n) × (allocate_loop size n a ≡ panic out_of_memory))
unfolding allocate_loop
allocate_loop_lem size zero a v = inl (
  omega arith,
  a,
  refl,
  record { counted = omega arith; kept = λ j h. h; named = λ h. absurd (omega arith); valid = v },
)
allocate_loop_lem size (suc n) a v = elim (allocate_one_lem size a v) [
  | inr (e, all) ↦
      let z : free_count size a ≡ 0 = count_false_zero size (used size a) all in
      inr (omega arith, rw e)
  | inl (b, d, e, at, f, t) ↦ elim (allocate_loop_lem size n b t.valid) [
    | inr (few, p) ↦ inr (omega (arith, free_count-Takes size a b t), rw e p)
    | inl (enough, c, p, m) ↦ inl (
      omega (arith, free_count-Takes size a b t),
      c,
      rw e p,
      record {
        counted = omega (arith, free_count-Takes size a b t, m.counted);
        kept = λ j h. m.kept j (ground (arith, t.now_used j));
        named = λ h. elim (Bool-cases (n == 0)) [
          | inl last ↦
              let same : c ≡ b = allocate_none size n b c ((==_iff n 0).0 last) p in
              rw same (t.was_free, ground (arith, t.now_used b.last_allocated))
          | inr more ↦
              let (free, taken_last) = m.named (ground (arith, more)) in
              (ground (arith, free, t.now_used c.last_allocated), taken_last)
        ];
        valid = m.valid;
      },
    )
  ]
]

-- In a valid allocator `allocate n` always ends: if at least n bits are free, it takes n of them,
-- keeps the bits in use and leaves the allocator valid, and the bit that it returns, if n is above
-- 0, is one of them; else it panics.
pub allocate_exact :
    (size n : ℕ) (a : StaticBitmapAllocator)
    → IsValid size a
    → ((n ≤ free_count size a)
        × (b : StaticBitmapAllocator) × (allocate size n a ≡ ok (b.last_allocated, b))
        × TakesMany size n a b)
      ⊎ ((free_count size a < n) × (allocate size n a ≡ panic out_of_memory))
unfolding allocate
allocate_exact size n a v = elim (allocate_loop_lem size n a v) [
  | inl (enough, b, e, m) ↦ inl (enough, b, rw e, m)
  | inr (few, e) ↦ inr (few, rw e)
]

-- One bit at a time: the bit returned was free, and is the only one that changes.
pub allocate_single :
    (size : ℕ) (a : StaticBitmapAllocator)
    → IsValid size a
    → ((b : StaticBitmapAllocator) × (allocate size 1 a ≡ ok (b.last_allocated, b))
        × Takes size a b)
      ⊎ ((allocate size 1 a ≡ panic out_of_memory) × ((i : ℕ) → i < size → used size a i ≡ true))
unfolding allocate allocate_loop
allocate_single size a v = elim (allocate_one_lem size a v) [
  | inl (b, d, e, at, f, t) ↦ inl (b, rw e, t)
  | inr (e, all) ↦ inr (rw e, all)
]

-- `free` gives back a bit in use, and no other; at a bit that is not in use it panics.
pub record Releases (size n : ℕ) (a b : StaticBitmapAllocator) : Type 0 where
  pub was_used : used size a n ≡ true
  pub now_free : (j : ℕ) → used size b j ≡ (if n == j then false else used size a j)
  pub valid : IsValid size b
  pub counted : free_count size b ≡ free_count size a + 1

freed : (size n : ℕ) → StaticBitmapAllocator → StaticBitmapAllocator
freed size n a = record a { bitmap = Bitmap.clear size a.bitmap n }

freed-Releases :
    (size n : ℕ) (a : StaticBitmapAllocator)
    → IsValid size a
    → used size a n ≡ true
    → Releases size n a (freed size n a)
unfolding freed
freed-Releases size n a v was =
    let b : StaticBitmapAllocator = record a { bitmap = Bitmap.clear size a.bitmap n } in
    record {
      was_used = was;
      now_free = λ j. test-clear size a.bitmap n j v.bits;
      valid = record { bits = clear-IsSized size n v.bits; cursor = v.cursor };
      counted = sym (
          count_false_turn size n (used size b) (used size a) (test-lt size a.bitmap n was)
            (ground (arith, test-clear size a.bitmap n n v.bits)) was
            (λ j h other. ground (arith, test-clear size a.bitmap n j v.bits)));
    }

-- In a valid allocator `free` gives back a bit that is in use, changes no other bit and leaves the
-- allocator valid; at a bit that is not in use it panics.
pub free-Releases :
    (size n : ℕ) (a : StaticBitmapAllocator)
    → IsValid size a
    → ((b : StaticBitmapAllocator) × (free size n a ≡ ok b) × Releases size n a b)
      ⊎ ((used size a n ≡ false) × (free size n a ≡ panic double_free))
unfolding free freed
free-Releases size n a v = elim (Bool-cases (used size a n)) [
  | inl was ↦ inl (freed size n a, rw was, freed-Releases size n a v was)
  | inr not_used ↦ inr (not_used, rw not_used)
]

free-Takes :
    (size : ℕ) (a b : StaticBitmapAllocator)
    → Takes size a b
    → (c : StaticBitmapAllocator) × (free size b.last_allocated b ≡ ok c)
      × ((j : ℕ) → used size c j ≡ used size a j)
free-Takes size a b t = elim (free-Releases size b.last_allocated b t.valid) [
  | inr (not_used, _) ↦ absurd (ground (arith, t.now_used b.last_allocated))
  | inl (c, e, f) ↦ (c, e, λ j. ground (arith, f.now_free j, t.now_used j, t.was_free))
]

-- A bit that `allocate` returned from a valid allocator, asked for one bit, can be given back, and
-- then the same bits are in use as before.
pub free-allocate :
    (size r : ℕ) (a b : StaticBitmapAllocator)
    → IsValid size a
    → allocate size 1 a ≡ ok (r, b)
    → (c : StaticBitmapAllocator) × (free size r b ≡ ok c)
      × ((j : ℕ) → used size c j ≡ used size a j)
free-allocate size r a b v e = elim (allocate_single size a v) [
  | inr (e', _) ↦ cc
  | inl (b', e', t) ↦
      let eb : b' ≡ b = cc in
      let er : b'.last_allocated ≡ r = cc in rw (← eb, ← er) (free-Takes size a b' t)
]
