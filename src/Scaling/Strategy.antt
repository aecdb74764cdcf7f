-- ===== src/Scaling/Strategy.antt =====
-- internal/scaling/strategy.go: the clamps, the three strategies and their choice by name.
use text.Mathlib.Text.{◌==◌ as str_eq}
use eregion.Prelude.{ℕ, ◌*◌, ◌/◌, ◌%◌, ◌^◌, ◌&&◌, Option, none, some, if◌then◌else◌, ltb, String}
use eregion.Prelude.Int.{ℤ, pos, ltb_ℤ, pos_part}
use eregion.Workload.Model.{ResolvedWorkloadSpec}
use eregion.Scaling.Floats.{Floats, Runtime}

-- `BacklogProvider`: the depth of a workload's queue, if it is known.
abbrev pub Provider : Type 0
Provider = String → Option ℤ

-- `if n < min { n = min }`
abbrev pub raise : ℤ → ℤ → ℤ
raise n min = if ltb_ℤ n min then min else n

-- `if max > 0 && n > max { n = max }`
abbrev pub cap : ℤ → ℤ → ℤ
cap n max = if ltb_ℤ (pos 0) max && ltb_ℤ max n then max else n

-- `if limit < n { n = limit }`
abbrev pub lower : ℤ → ℤ → ℤ
lower n limit = if ltb_ℤ limit n then limit else n

-- The bytes that one worker may use, as a uint64.
abbrev pub per_worker : ResolvedWorkloadSpec → ℕ
per_worker spec = pos_part spec.resources.memory_mb * 1024 * 1024 % 2 ^ 64

module _ (fl : Floats) where
  -- The CPUs' share by resource class.
  abbrev pub per_cpu : String → fl.F
  per_cpu class' =
      if str_eq class' "cpu"
      then fl.of_int (pos 1)
      else if str_eq class' "io"
      then fl.of_int (pos 4)
      else fl.of_int (pos 2)

  unfoldable pub memory_clamp : ℤ → ResolvedWorkloadSpec → Runtime fl.F → ℤ
  memory_clamp n spec runtime =
      if ltb_ℤ (pos 0) spec.resources.memory_mb
        && (runtime.memory_limit_known
            && (ltb 0 runtime.memory_limit_bytes && ltb 0 (per_worker spec)))
      then lower n (pos (runtime.memory_limit_bytes / per_worker spec))
      else n

  abbrev pub cpu_limit : ResolvedWorkloadSpec → Runtime fl.F → ℤ
  cpu_limit spec runtime =
      raise (fl.ceil_int (fl.mul runtime.available_cpus (per_cpu spec.resources.class'))) (pos 1)

  unfoldable pub cpu_clamp : ℤ → ResolvedWorkloadSpec → Runtime fl.F → ℤ
  cpu_clamp n spec runtime =
      if fl.is_positive runtime.available_cpus then lower n (cpu_limit spec runtime) else n

  unfoldable pub apply_resource_clamp : ℤ → ResolvedWorkloadSpec → Runtime fl.F → ℤ
  unfolding memory_clamp cpu_clamp
  apply_resource_clamp n spec runtime =
      if ltb_ℤ (pos 0) n then cpu_clamp (memory_clamp n spec runtime) spec runtime else n

  unfoldable pub clamp_desired : ℤ → ℤ → ℤ → ResolvedWorkloadSpec → Runtime fl.F → ℤ
  unfolding apply_resource_clamp
  clamp_desired n min max spec runtime =
      cap (raise (apply_resource_clamp (cap (raise n min) max) spec runtime) min) max

  unfoldable pub fixed : ResolvedWorkloadSpec → Runtime fl.F → ℤ
  unfolding clamp_desired
  fixed spec runtime =
      clamp_desired (raise spec.workers.max spec.workers.min) spec.workers.min spec.workers.max spec
        runtime

  abbrev pub drain_demand : ResolvedWorkloadSpec → ℤ → ℤ
  drain_demand spec depth =
      let avg = fl.seconds_of spec.scaling.avg_job_duration in
      let drain = fl.seconds_of spec.scaling.target_drain_time in
      fl.ceil_int (
        fl.div (fl.mul (fl.of_int depth) (if fl.is_nonpositive avg then fl.of_int (pos 1) else avg))
          (if fl.is_nonpositive drain then fl.of_int (pos 10) else drain))

  -- The depth, where there is a provider that knows it.
  abbrev pub depth_of : Option Provider → String → Option ℤ
  depth_of none name = none
  depth_of (some p) name = p name

  abbrev pub demand_or_min : ResolvedWorkloadSpec → Option ℤ → ℤ
  demand_or_min spec none = spec.workers.min
  demand_or_min spec (some depth) = drain_demand spec depth

  unfoldable pub backlog : Option Provider → ResolvedWorkloadSpec → Runtime fl.F → ℤ
  unfolding clamp_desired
  backlog provider spec runtime =
      clamp_desired (demand_or_min spec (depth_of provider spec.name)) spec.workers.min
        spec.workers.max spec runtime

  abbrev pub usable_cpus : Runtime fl.F → fl.F
  usable_cpus runtime =
      if fl.is_nonpositive runtime.available_cpus
      then (if fl.is_nonpositive (fl.of_int runtime.logical_cpus)
          then fl.of_int (pos 1)
          else fl.of_int runtime.logical_cpus)
      else runtime.available_cpus

  abbrev pub resource_demand : ResolvedWorkloadSpec → Runtime fl.F → ℤ
  resource_demand spec runtime =
      fl.ceil_int (fl.mul (usable_cpus runtime) (per_cpu spec.resources.class'))

  unfoldable pub by_resources : ResolvedWorkloadSpec → Runtime fl.F → ℤ
  unfolding clamp_desired
  by_resources spec runtime =
      clamp_desired (resource_demand spec runtime) spec.workers.min spec.workers.max spec runtime

  -- `Registry.For`, and the strategy's `DesiredWorkers`.
  unfoldable pub desired_workers : Option Provider → ResolvedWorkloadSpec → Runtime fl.F → ℤ
  unfolding fixed backlog by_resources
  desired_workers provider spec runtime =
      if str_eq spec.scaling.strategy "backlog"
      then backlog provider spec runtime
      else if str_eq spec.scaling.strategy "resources"
      then by_resources spec runtime
      else fixed spec runtime
