-- ===== src/Sizing/Advice.antt =====
-- internal/sizing/advisor.go and classification.go. The reason, a text for the log, is left out.
use eregion.Prelude.{Bool, if◌then◌else◌}
use eregion.Prelude.Int.{ℤ, pos, ltb_ℤ}
use eregion.Resources.Types.{RuntimeResources}

-- The float64 operations of the advisor.
pub record Floats : Type 1 where
  pub F : Type 0
  pub of_int : ℤ → F
  pub mul : F → F → F
  pub div : F → F → F
  -- `x <= y`
  pub at_most : F → F → Bool
  -- `x > y`
  pub exceeds : F → F → Bool
  -- `int(math.Ceil(x))`
  pub ceil_int : F → ℤ

pub data Classification : Type 0 where
  cpu_conservative balanced io_optimized high_oversubscription extreme_oversubscription :
      Classification

pub record WorkerSizing (F : Type 0) : Type 0 where
  pub configured_workers : ℤ
  pub available_cpus : F
  pub workers_per_cpu : F
  pub recommended_workers : ℤ
  pub recommended_min : ℤ
  pub recommended_max : ℤ
  pub classification : Classification
  pub warning : Bool

abbrev pub at_least_one : ℤ → ℤ
at_least_one n = if ltb_ℤ n (pos 1) then pos 1 else n

module _ (fl : Floats) where
  abbrev pub ceil_workers : fl.F → ℤ
  ceil_workers v = at_least_one (fl.ceil_int v)

  abbrev pub classify : fl.F → Classification
  classify ratio =
      if fl.at_most ratio (fl.of_int (pos 1))
      then cpu_conservative
      else if fl.at_most ratio (fl.of_int (pos 2))
      then balanced
      else if fl.at_most ratio (fl.of_int (pos 4))
      then io_optimized
      else if fl.at_most ratio (fl.of_int (pos 8))
      then high_oversubscription
      else extreme_oversubscription

  abbrev pub or_next : fl.F → fl.F → fl.F
  or_next available next = if fl.at_most available (fl.of_int (pos 0)) then next else available

  abbrev pub available_of : RuntimeResources fl.F → fl.F
  available_of res =
      or_next
        (or_next (or_next res.available_cpus (fl.of_int res.gomaxprocs))
          (fl.of_int res.logical_cpus))
        (fl.of_int (pos 1))

  unfoldable pub analyze : RuntimeResources fl.F → ℤ → WorkerSizing fl.F
  analyze res workers =
      let available = available_of res in
      let configured = at_least_one workers in
      let ratio = fl.div (fl.of_int configured) available in
      record {
        configured_workers = configured;
        available_cpus = available;
        workers_per_cpu = ratio;
        recommended_workers = ceil_workers (fl.mul available (fl.of_int (pos 2)));
        recommended_min = ceil_workers (fl.mul available (fl.of_int (pos 1)));
        recommended_max = ceil_workers (fl.mul available (fl.of_int (pos 4)));
        classification = classify ratio;
        warning = fl.exceeds ratio (fl.of_int (pos 8));
      }
