-- ===== src/Prelude/Int.antt =====
-- Signed numbers over the native ℕ, and their conversion to 64 bits.
use Prim.Native.Nat.{ℕ, ◌-◌}
use radish_os.Prelude.Words.{u64_mod}

pub data ℤ : Type 0 where
  pos negsuc : ℕ → ℤ

-- two's complement; `negsuc n` is - n - 1
abbrev pub to_u64 : ℤ → ℕ
to_u64 (pos n) = n
to_u64 (negsuc n) = u64_mod - 1 - n

-- the rounds of `for (int i = 0; i < n; i++)`
abbrev pub rounds : ℤ → ℕ
rounds (pos n) = n
rounds (negsuc n) = 0
