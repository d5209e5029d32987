-- ===== src/Math.antt =====
-- kernel/include/lib/math.hpp: `pow`, at `usize`.
pub mod Power
mod Tests
use radish_os.Prelude.{ℕ, zero, suc, ◌*◌, ◌/◌, ◌%◌, ◌==◌, if◌then◌else◌}
use radish_os.Prelude.Words.{u64_mod}
use radish_os.Outcome.{Outcome, ok, out_of_fuel}

-- the product of two `usize`
abbrev pub mul64 : ℕ → ℕ → ℕ
mul64 a b = a * b % u64_mod

-- the loop of `pow`
pub pow_loop : ℕ → ℕ → ℕ → ℕ → Outcome ℕ
pow_loop zero base exp result = out_of_fuel
pow_loop (suc fuel) base exp result =
    let result' = if exp % 2 == 1 then mul64 result base else result in
    let rest = pow_loop fuel (mul64 base base) (exp / 2) result' in
    if exp / 2 == 0 then ok result' else rest

-- an exponent has 64 bits
pub pow : ℕ → ℕ → Outcome ℕ
pow base exp = pow_loop 64 base exp 1
