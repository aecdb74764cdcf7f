-- ===== src/Scaling/Floats.antt =====
-- The float64 operations that the strategies use, as an interface: nothing is assumed of them here.
use eregion.Prelude.{ℕ, Bool}
use eregion.Prelude.Int.{ℤ}

pub record Floats : Type 1 where
  pub F : Type 0
  pub of_int : ℤ → F
  pub mul : F → F → F
  pub div : F → F → F
  -- `x <= 0`
  pub is_nonpositive : F → Bool
  -- `x > 0`
  pub is_positive : F → Bool
  -- `int(math.Ceil(x))`
  pub ceil_int : F → ℤ
  -- `Duration.Seconds`
  pub seconds_of : ℤ → F

-- The fields of `resources.RuntimeResources` that the strategies read.
pub record Runtime (F : Type 0) : Type 0 where
  pub logical_cpus : ℤ
  pub available_cpus : F
  pub memory_limit_bytes : ℕ
  pub memory_limit_known : Bool
