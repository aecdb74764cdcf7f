-- ===== src/Resources/Types.antt =====
-- internal/resources/resources.go, and the types of cgroup.go and self_cgroup.go.
use eregion.Prelude.{ℕ, Bool, Option, String}
use eregion.Prelude.Int.{ℤ}

-- float64 and `strconv.ParseFloat`. Nothing is assumed of them here.
pub record Floats : Type 1 where
  pub F : Type 0
  pub of_int : ℤ → F
  pub div : F → F → F
  pub less : F → F → Bool
  -- `x <= 0`
  pub is_nonpositive : F → Bool
  -- `x > 0`
  pub is_positive : F → Bool
  pub parse_float : String → Option F

pub data CpuSource : Type 0 where
  unset cgroup_quota cpuset combined gomaxprocs numcpu fallback : CpuSource

pub data Environment : Type 0 where
  host cgroup_v1 cgroup_v2 unknown : Environment

pub record RuntimeResources (F : Type 0) : Type 0 where
  pub logical_cpus : ℤ
  pub available_cpus : F
  pub gomaxprocs : ℤ
  pub cpu_quota_detected : Bool
  pub cpu_set_detected : Bool
  pub cpu_source : CpuSource
  pub memory_limit_bytes : ℕ
  pub memory_limit_known : Bool
  pub environment : Environment
  pub cgroup_version : ℕ

pub record CpuQuota (F : Type 0) : Type 0 where
  pub available : F
  pub limited : Bool

pub record CgroupMembership : Type 0 where
  pub version : ℕ
  pub unified : String
  pub cpu : String
  pub memory : String
  pub cpu_set : String

pub data ParseError : Type 0 where
  too_few_fields bad_quota bad_period invalid_period bad_number : ParseError
  empty_set bad_start bad_end inverted_range bad_cpu no_cpus : ParseError
