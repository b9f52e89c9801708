-- ===== src/Base/Orders.antt =====
-- What the code relies on where it takes a `generic.Ordered` type.
use mathlib.Core.Path.{◌≡◌}
use mathlib.Core.Bool.{Bool, true, false}

-- No value is below itself, "not below" is transitive and "below" is asymmetric. It holds of integers
-- and strings, and not of floating-point numbers with NaN.
pub record Ordered {N : Type 0} (lt : N → N → Bool) : Type 0 where
  pub irrefl : (a : N) → lt a a ≡ false
  pub trans : (a b c : N) → lt b a ≡ false → lt c b ≡ false → lt c a ≡ false
  pub asym : (a b : N) → lt a b ≡ true → lt b a ≡ false
