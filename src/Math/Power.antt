-- ===== src/Math/Power.antt =====
-- `pow` is the power, modulo 2 ^ 64.
use radish_os.Prelude.{
  ℕ, zero, suc, ◌+◌, ◌*◌, ◌/◌, ◌%◌, ◌^◌, ◌<◌, ◌≡◌, refl, sym, ap, ◌∙◌, inl, inr, true, false, ◌==◌,
  if◌then◌else◌, arith, Bool-cases,
}
use native.Mathlib.Nat.{
  div-add-mod, add-mul-mod_self_left, pow-suc, pow-zero, pow-succ', mod-lt, mul_comm, mul_assoc,
  one-mul,
}
use radish_os.Prelude.Words.{u64_mod}
use radish_os.Outcome.{ok}
use radish_os.Math.{mul64, pow_loop, pow}

expand : (m q r b : ℕ) → (m * q + r) * b ≡ r * b + m * (q * b)
expand m q r b = grind arith

mod-mul : (m a b : ℕ) → a % m * b % m ≡ a * b % m
mod-mul m a b =
    let e : a * b ≡ a % m * b + m * (a / m * b) =
      ap (λ (t : ℕ). t * b) (sym (div-add-mod a m)) ∙ expand m (a / m) (a % m) b in
    sym (ap (λ (t : ℕ). t % m) e ∙ add-mul-mod_self_left (a % m * b) m (a / m * b))

-- the same, on the right
mod-mul_right : (m a b : ℕ) → a * (b % m) % m ≡ a * b % m
mod-mul_right m a b =
    ap (λ (t : ℕ). t % m) (mul_comm a (b % m))
    ∙ (mod-mul m b a ∙ ap (λ (t : ℕ). t % m) (mul_comm b a))

-- a factor may be reduced under a power
mod-pow : (m r x k : ℕ) → r * (x % m) ^ k % m ≡ r * x ^ k % m
mod-pow m r x zero = simp (pow-zero) refl
mod-pow m r x (suc k) =
    let y : ℕ = x % m in
    let p : r * y ^ suc k ≡ (r * y ^ k) * y = rw (pow-suc) (sym (mul_assoc r (y ^ k) y)) in
    let q : r * x ^ suc k ≡ (r * x ^ k) * x = rw (pow-suc) (sym (mul_assoc r (x ^ k) x)) in
    ap (λ (t : ℕ). t % m) p
    ∙ (mod-mul_right m (r * y ^ k) x
        ∙ (sym (mod-mul m (r * y ^ k) x)
            ∙ (ap (λ (t : ℕ). t * x % m) (mod-pow m r x k)
                ∙ (mod-mul m (r * x ^ k) x ∙ ap (λ (t : ℕ). t % m) (sym q)))))

square-pow : (b k : ℕ) → (b * b) ^ k ≡ b ^ (2 * k)
square-pow b zero = simp (pow-zero) refl
square-pow b (suc k) =
    let two : 2 * suc k ≡ suc (suc (2 * k)) = omega arith in
    simp (two, pow-suc)
      (ap (λ (t : ℕ). t * (b * b)) (square-pow b k) ∙ sym (mul_assoc (b ^ (2 * k)) b b))

-- what is left of the exponent's lowest digit
odd_split : (exp : ℕ) → (exp % 2 == 1) ≡ true → exp ≡ suc (2 * (exp / 2))
odd_split exp h = ground arith

even_split : (exp : ℕ) → (exp % 2 == 1) ≡ false → exp ≡ 2 * (exp / 2)
even_split exp h = ground arith

step_value : ℕ → ℕ → ℕ → ℕ
step_value base exp result = if exp % 2 == 1 then mul64 result base else result

step_value-lt : (base exp result : ℕ) → result < u64_mod → step_value base exp result < u64_mod
unfolding step_value
step_value-lt base exp result h = ground (arith, mod-lt (result * base) {m = u64_mod} (omega arith))

-- one round keeps the product of `result` and the power that is left
round_lem :
    (base exp result : ℕ)
    → step_value base exp result * mul64 base base ^ (exp / 2) % u64_mod
      ≡ result * base ^ exp % u64_mod
unfolding step_value
round_lem base exp result =
    mod-pow u64_mod (step_value base exp result) (base * base) (exp / 2)
    ∙ (ap (λ (t : ℕ). step_value base exp result * t % u64_mod) (square-pow base (exp / 2))
        ∙ (elim (Bool-cases (exp % 2 == 1)) [
          | inr even ↦
              rw even (ap (λ (t : ℕ). result * base ^ t % u64_mod) (sym (even_split exp even)))
          | inl odd ↦ rw odd (
              mod-mul u64_mod (result * base) (base ^ (2 * (exp / 2)))
              ∙ (ap (λ (t : ℕ). t % u64_mod) (regroup result base (2 * (exp / 2)))
                  ∙ ap (λ (t : ℕ). result * base ^ t % u64_mod) (sym (odd_split exp odd))))
        ]))
  where
    regroup : (r b k : ℕ) → r * b * b ^ k ≡ r * b ^ suc k
    regroup r b k = mul_assoc r b (b ^ k) ∙ ap (λ (t : ℕ). r * t) (sym (pow-succ' b k))

-- the last round, where the exponent ends
last_round :
    (base exp result : ℕ)
    → exp / 2 ≡ 0
    → result < u64_mod
    → step_value base exp result ≡ result * base ^ exp % u64_mod
last_round base exp result e small =
    let one_left : step_value base exp result * mul64 base base ^ (exp / 2) % u64_mod
        ≡ step_value base exp result * 1 % u64_mod =
      ap (λ (t : ℕ). step_value base exp result * t % u64_mod)
        (ap (λ (k : ℕ). mul64 base base ^ k) e ∙ pow-zero (mul64 base base)) in
    let plain : step_value base exp result * 1 % u64_mod ≡ step_value base exp result =
      omega (arith, step_value-lt base exp result small) in
    sym (one_left ∙ plain) ∙ round_lem base exp result

pow_loop_end :
    (fuel base exp result : ℕ)
    → (exp / 2 == 0) ≡ true
    → pow_loop (suc fuel) base exp result ≡ ok (step_value base exp result)
unfolding pow_loop step_value
pow_loop_end fuel base exp result h = rw h refl

pow_loop_step :
    (fuel base exp result : ℕ)
    → (exp / 2 == 0) ≡ false
    → pow_loop (suc fuel) base exp result
      ≡ pow_loop fuel (mul64 base base) (exp / 2) (step_value base exp result)
unfolding pow_loop step_value
pow_loop_step fuel base exp result h = rw h refl

pow_loop_lem :
    (fuel base exp result : ℕ)
    → exp < 2 ^ suc fuel
    → result < u64_mod
    → pow_loop (suc fuel) base exp result ≡ ok (result * base ^ exp % u64_mod)
pow_loop_lem zero base exp result h small =
    let last : (exp / 2 == 0) ≡ true = ground arith in
    pow_loop_end zero base exp result last ∙ ap ok (last_round base exp result (ground arith) small)
pow_loop_lem (suc fuel) base exp result h small = elim (Bool-cases (exp / 2 == 0)) [
  | inl last ↦
      pow_loop_end (suc fuel) base exp result last
      ∙ ap ok (last_round base exp result (ground arith) small)
  | inr more ↦
      pow_loop_step (suc fuel) base exp result more
      ∙ (pow_loop_lem fuel (mul64 base base) (exp / 2) (step_value base exp result)
            (omega (arith, pow-suc 2 (suc fuel))) (step_value-lt base exp result small)
          ∙ ap ok (round_lem base exp result))
]

-- For an exponent of 64 bits `pow` ends, and is the power modulo 2 ^ 64.
pub pow_lem : (base exp : ℕ) → exp < u64_mod → pow base exp ≡ ok (base ^ exp % u64_mod)
unfolding pow
pow_lem base exp h =
    pow_loop_lem 63 base exp 1 h (omega arith)
    ∙ ap (λ (t : ℕ). ok (t % u64_mod)) (one-mul (base ^ exp))
