-- ===== src/Math/Tests.antt =====
-- A power that wraps.
use radish_os.Prelude.{◌%◌, ◌^◌, ◌≡◌, arith}
use radish_os.Prelude.Words.{u64_mod}
use radish_os.Outcome.{ok}
use radish_os.Math.{pow}
use radish_os.Math.Power.{pow_lem}

pow_lem_example : pow 3 50 ≡ ok (3 ^ 50 % u64_mod)
pow_lem_example = pow_lem 3 50 (omega arith)
