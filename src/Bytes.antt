-- ===== src/Bytes.antt =====
-- kernel/include/lib/bytes.hpp, and the rounding helpers of kernel/include/mem/page.hpp, at
-- 64 bits.
use radish_os.Prelude.{
  ℕ, ◌+◌, ◌-◌, ◌*◌, ◌/◌, ◌%◌, ◌≤◌, ◌<◌, ◌≡◌, ◌⊎◌, inl, inr, ltb, ◌==◌, if◌then◌else◌, arith,
  Bool-cases, ==_iff, ◌∙◌,
}
use native.Mathlib.Nat.{div-add-mod, mod-lt, mul-add, mul-one, mul-mod_right}
use radish_os.Prelude.Words.{u64_mod, add64, sub64}

abbrev pub page_size : ℕ
page_size = 0x1000

-- `alignUp<usize>(val, n)`
unfoldable pub align_up : ℕ → ℕ → ℕ
align_up val n =
    let rem = val % n in
    let res = add64 val (sub64 n rem) in
    if n == 0 then 0 else if rem == 0 then val else if ltb res val then 0 else res

unfoldable pub page_align_down : ℕ → ℕ
page_align_down base = base / page_size * page_size

pub page_align_up : ℕ → ℕ
page_align_up base = sub64 (add64 base page_size) 1 / page_size * page_size

unfoldable pub page_div_up : ℕ → ℕ
page_div_up base = sub64 (add64 base page_size) 1 / page_size

-- The least multiple of n that is not below val, when it fits in 64 bits.
pub record IsRounded (n val res : ℕ) : Type 0 where
  pub multiple : res % n ≡ 0
  pub above : val ≤ res
  pub near : res < val + n

next_multiple : (val n : ℕ) → 0 < n → (val + (n - val % n)) % n ≡ 0
next_multiple val n pos =
    let e : val + (n - val % n) ≡ n * (val / n + 1) =
      omega (arith, div-add-mod val n, mod-lt val pos, mul-add n (val / n) 1, mul-one n) in
    rw e (mul-mod_right n (val / n + 1))

sub64_rem : (val n : ℕ) → 0 < n → n < u64_mod → sub64 n (val % n) ≡ n - val % n
sub64_rem val n pos small = omega (arith, mod-lt val pos)

-- The branches of `alignUp` at n above 0, with the wrap of the sum left.
align_up_cases :
    (val n : ℕ)
    → 0 < n
    → n < u64_mod
    → align_up val n ≡ (
        if val % n == 0
        then val
        else if ltb (add64 val (n - val % n)) val
        then 0
        else add64 val (n - val % n))
unfolding align_up
align_up_cases val n pos small = rw (sub64_rem val n pos small) (ground arith)

-- For n above 0, `alignUp(val, n)` is the least multiple of n that is not below val, or, where val
-- + n is above 2 ^ 64, may be 0.
pub align_up_lem :
    (val n : ℕ)
    → 0 < n
    → n < u64_mod
    → val < u64_mod
    → IsRounded n val (align_up val n) ⊎ ((u64_mod < val + n) × (align_up val n ≡ 0))
align_up_lem val n pos small h = elim (Bool-cases (val % n == 0)) [
  | inl even ↦ inl (
      rw (align_up_cases val n pos small, even)
        (record { multiple = (==_iff _ 0).0 even; above = omega arith; near = omega arith }))
  | inr odd ↦ elim (Bool-cases (ltb (val + (n - val % n)) u64_mod)) [
    | inl fits ↦
        let e : align_up val n ≡ val + (n - val % n) =
          align_up_cases val n pos small ∙ ground (arith, mod-lt val pos) in
        inl (
          rw e (record {
            multiple = next_multiple val n pos;
            above = omega arith;
            near = ground (arith, mod-lt val pos);
          }))
    | inr wraps ↦ inr (
      ground (arith, mod-lt val pos),
      align_up_cases val n pos small ∙ ground (arith, mod-lt val pos),
    )
  ]
]

-- For an address at least a page below 2 ^ 64, `pageAlignUp` is the least multiple of the page
-- size that is not below it, `pageAlignDown` the greatest that is not above it, and `pageDivUp`
-- the number of pages up to `pageAlignUp`.
pub page_rounding :
    (base : ℕ)
    → base + page_size ≤ u64_mod
    → IsRounded page_size base (page_align_up base)
      × (page_align_down base % page_size ≡ 0)
      × (page_align_down base ≤ base)
      × (base < page_align_down base + page_size)
      × (page_align_up base ≡ page_div_up base * page_size)
unfolding page_align_up page_align_down page_div_up
page_rounding base h = omega arith
