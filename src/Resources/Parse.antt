-- ===== src/Resources/Parse.antt =====
-- internal/resources/cgroup.go: quotas and memory limits.
use text.Mathlib.Text.{◌==◌ as str_eq}
use eregion.Prelude.{
  ℕ, ◌^◌, true, false, ◌||◌, Option, none, some, List, [], ◌∷◌, String, if◌then◌else◌, ltb,
}
use eregion.Prelude.Int.{ℤ, pos, ltb_ℤ}
use eregion.Prelude.Results.{Result, ok, fail, ◌>>=◌}
use eregion.Prelude.Texts.{is_empty, trim_space, fields}
use eregion.Prelude.Decimals.{parse_int, parse_uint}
use eregion.Resources.Types.{
  Floats, CpuQuota, ParseError, too_few_fields, bad_quota, bad_period, invalid_period, bad_number,
}

abbrev pub or_fail {ℓ} : {A : Type ℓ} → ParseError → Option A → Result ParseError A
or_fail e none = fail e
or_fail e (some a) = ok a

abbrev pub limit_of : Option ℕ → Result ParseError (Option ℕ)
limit_of none = fail bad_number
limit_of (some v) = ok (some v)

abbrev pub low_limit_of : Option ℕ → Result ParseError (Option ℕ)
low_limit_of none = fail bad_number
low_limit_of (some v) = ok (if ltb v (2 ^ 62) then some v else none)

-- `none` is a limit that is not known.
unfoldable pub parse_memory_max : String → Result ParseError (Option ℕ)
parse_memory_max content =
    let s = trim_space content in
    if is_empty s || str_eq s "max" then ok none else limit_of (parse_uint s)

unfoldable pub parse_memory_limit_bytes : String → Result ParseError (Option ℕ)
parse_memory_limit_bytes content =
    let s = trim_space content in if is_empty s then ok none else low_limit_of (parse_uint s)

module _ (floats : Floats) where
  abbrev pub unlimited : CpuQuota floats.F
  unlimited = record { available = floats.of_int (pos 0); limited = false }

  abbrev pub quotient : floats.F → floats.F → CpuQuota floats.F
  quotient quota period = record { available = floats.div quota period; limited = true }

  abbrev pub parse_parts : String → String → Result ParseError (CpuQuota floats.F)
  parse_parts q p = do
    quota ← or_fail bad_quota (floats.parse_float q)
    period ← or_fail bad_period (floats.parse_float p)
    if floats.is_nonpositive period then fail invalid_period else ok (quotient quota period)

  abbrev pub parse_fields : List String → Result ParseError (CpuQuota floats.F)
  parse_fields [] = fail too_few_fields
  parse_fields (_ ∷ []) = fail too_few_fields
  parse_fields (q ∷ p ∷ _) =
      let parts = parse_parts q p in if str_eq q "max" then ok unlimited else parts

  unfoldable pub parse_cpu_max : String → Result ParseError (CpuQuota floats.F)
  parse_cpu_max content = parse_fields (fields content)

  unfoldable pub with_period : ℤ → String → Result ParseError (CpuQuota floats.F)
  with_period quota content = do
    period ← or_fail bad_period (parse_int (trim_space content))
    if ltb_ℤ period (pos 1)
        then fail invalid_period
        else ok (quotient (floats.of_int quota) (floats.of_int period))

  unfoldable pub parse_cfs_quota : String → String → Result ParseError (CpuQuota floats.F)
  unfolding with_period
  parse_cfs_quota quota_content period_content = do
    quota ← or_fail bad_quota (parse_int (trim_space quota_content))
    if ltb_ℤ quota (pos 0) then ok unlimited else with_period quota period_content
