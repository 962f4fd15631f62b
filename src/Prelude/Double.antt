-- ===== src/Prelude/Double.antt =====
-- C++ `double`, of which the development asks only that `<=` is transitive and that decimal literals keep
-- their order. The values and the operations are those of the platform, so they are parameters.
use Prim.Native.Nat.{ℕ, ◌≤◌}
use kvmux.Prelude.Int.{ℤ}
use mathlib.Core.Path.{◌≡◌}
use mathlib.Core.Bool.{Bool, true}

pub record Double : Type 1 where
  pub Value : Type 0
  pub zero_value : Value
  pub of_int : ℕ → Value
  pub of_int64 : ℤ → Value
  -- the literal that stands for this many tenths
  pub tenths : ℕ → Value
  -- and the one for this many thousandths
  pub thousandths : ℕ → Value
  pub add : Value → Value → Value
  pub mul : Value → Value → Value
  pub lt : Value → Value → Bool
  pub le : Value → Value → Bool
  pub le_trans : (a b c : Value) → le a b ≡ true → le b c ≡ true → le a c ≡ true
  pub thousandths_le : (m n : ℕ) → m ≤ n → le (thousandths m) (thousandths n) ≡ true
