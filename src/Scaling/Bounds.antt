-- ===== src/Scaling/Bounds.antt =====
-- The strategies stay within a workload's bounds.
use text.Mathlib.Text.{◌==◌ as str_eq}
use eregion.Prelude.{ℕ, ◌<◌, ◌/◌, ◌≡◌, true, Option, arith, lt→ltb, Bool-cases, inl, inr, ◌⊎◌}
use eregion.Prelude.Int.{ℤ, pos, negsuc, ltb_ℤ, pos_part, ◌≤ℤ◌}
use eregion.Workload.Model.{ResolvedWorkloadSpec}
use eregion.Scaling.Floats.{Floats, Runtime}
use eregion.Scaling.Strategy.{
  Provider, raise, cap, lower, memory_clamp, cpu_clamp, apply_resource_clamp, clamp_desired, fixed,
  backlog, by_resources, desired_workers, per_worker, depth_of, demand_or_min, resource_demand,
}

abbrev pub IsWithin : ℤ → ℤ → ℤ → Type 0
IsWithin n min max = (min ≤ℤ n) × (n ≤ℤ max)

raise-cap-IsWithin :
    (n min max : ℤ) → min ≤ℤ max → 0 < pos_part max → IsWithin (cap (raise n min) max) min max
raise-cap-IsWithin n min max h k = ground arith

pub clamp_desired-IsWithin :
    (fl : Floats) (n min max : ℤ) (spec : ResolvedWorkloadSpec) (runtime : Runtime fl.F)
    → min ≤ℤ max
    → 0 < pos_part max
    → IsWithin (clamp_desired fl n min max spec runtime) min max
unfolding clamp_desired
clamp_desired-IsWithin fl n min max spec runtime h k =
    raise-cap-IsWithin (apply_resource_clamp fl (cap (raise n min) max) spec runtime) min max h k

-- A property of the clamped numbers holds of what every strategy wants.
desired_workers-all {ℓ} :
    (fl : Floats) (provider : Option Provider) (spec : ResolvedWorkloadSpec)
    (runtime : Runtime fl.F) (P : ℤ → Type ℓ)
    → ((n : ℤ) → P (clamp_desired fl n spec.workers.min spec.workers.max spec runtime))
    → P (desired_workers fl provider spec runtime)
unfolding desired_workers fixed backlog by_resources
desired_workers-all fl provider spec runtime P h =
    elim (Bool-cases (str_eq spec.scaling.strategy "backlog")) [
      | inl e ↦ rw e (h (demand_or_min fl spec (depth_of fl provider spec.name)))
      | inr e ↦ elim (Bool-cases (str_eq spec.scaling.strategy "resources")) [
        | inl f ↦ rw (e, f) (h (resource_demand fl spec runtime))
        | inr f ↦ rw (e, f) (h (raise spec.workers.max spec.workers.min))
      ]
    ]

-- Whatever the strategy, the backlog and the resources, and however float64 computes: the number of
-- workers wanted is within the workload's bounds, where these are in order and the upper one is
-- positive.
pub desired_workers-IsWithin :
    (fl : Floats) (provider : Option Provider) (spec : ResolvedWorkloadSpec)
    (runtime : Runtime fl.F)
    → spec.workers.min ≤ℤ spec.workers.max
    → 0 < pos_part spec.workers.max
    → IsWithin (desired_workers fl provider spec runtime) spec.workers.min spec.workers.max
desired_workers-IsWithin fl provider spec runtime h k =
    desired_workers-all fl provider spec runtime (λ r. IsWithin r spec.workers.min spec.workers.max)
      (λ n. clamp_desired-IsWithin fl n spec.workers.min spec.workers.max spec runtime h k)

-- At most the minimum, or no more than a limit.
abbrev pub IsAffordable : ℤ → ℤ → ℤ → Type 0
IsAffordable n min limit = (n ≤ℤ min) ⊎ (n ≤ℤ limit)

cap-raise-IsAffordable :
    (n min max limit : ℤ) → n ≤ℤ limit → IsAffordable (cap (raise n min) max) min limit
cap-raise-IsAffordable n min max limit h = ground arith

-- The workers that fit into the memory limit.
abbrev pub that_fit : ResolvedWorkloadSpec → ℕ → ℤ
that_fit spec limit = pos (limit / per_worker spec)

lower-le : (n limit : ℤ) → lower n limit ≤ℤ limit
lower-le n limit = ground arith

cpu_clamp-le :
    (fl : Floats) (n : ℤ) (spec : ResolvedWorkloadSpec) (runtime : Runtime fl.F)
    → cpu_clamp fl n spec runtime ≤ℤ n
unfolding cpu_clamp
cpu_clamp-le fl n spec runtime = elim (Bool-cases (fl.is_positive runtime.available_cpus)) [
  | inl e ↦ rw e (ground arith)
  | inr e ↦ rw e (omega arith)
]

pub record HasMemoryLimit {F : Type 0} (spec : ResolvedWorkloadSpec) (runtime : Runtime F)
    : Type 0 where
  pub declared : 0 < pos_part spec.resources.memory_mb
  pub no_wrap : 0 < per_worker spec
  pub known : runtime.memory_limit_known ≡ true
  pub some_bytes : 0 < runtime.memory_limit_bytes

ltb_ℤ_positive : (z : ℤ) → 0 < pos_part z → ltb_ℤ (pos 0) z ≡ true
ltb_ℤ_positive (pos n) h = ground arith
ltb_ℤ_positive (negsuc n) h = absurd (omega arith)

memory_clamp-le :
    (fl : Floats) (n : ℤ) (spec : ResolvedWorkloadSpec) (runtime : Runtime fl.F)
    → HasMemoryLimit spec runtime
    → memory_clamp fl n spec runtime ≤ℤ that_fit spec runtime.memory_limit_bytes
unfolding memory_clamp
memory_clamp-le fl n spec runtime m =
    rw
      (
        ltb_ℤ_positive spec.resources.memory_mb m.declared,
        lt→ltb 0 runtime.memory_limit_bytes m.some_bytes,
        lt→ltb 0 (per_worker spec) m.no_wrap,
        m.known,
      )
      (lower-le n (that_fit spec runtime.memory_limit_bytes))

apply_resource_clamp-le :
    (fl : Floats) (n : ℤ) (spec : ResolvedWorkloadSpec) (runtime : Runtime fl.F)
    → HasMemoryLimit spec runtime
    → apply_resource_clamp fl n spec runtime ≤ℤ that_fit spec runtime.memory_limit_bytes
unfolding apply_resource_clamp
apply_resource_clamp-le fl n spec runtime m = elim (Bool-cases (ltb_ℤ (pos 0) n)) [
  | inl e ↦ rw e (
      omega (
        arith,
        cpu_clamp-le fl (memory_clamp fl n spec runtime) spec runtime,
        memory_clamp-le fl n spec runtime m,
      ))
  | inr e ↦ rw e (ground (arith, e))
]

-- Where a workload declares its workers' memory, whose bytes do not wrap around to 0, and the memory
-- limit is known and positive, no strategy wants more workers than fit into the limit, except those
-- of the configured minimum.
pub desired_workers-IsAffordable :
    (fl : Floats) (provider : Option Provider) (spec : ResolvedWorkloadSpec)
    (runtime : Runtime fl.F)
    → HasMemoryLimit spec runtime
    → IsAffordable
        (desired_workers fl provider spec runtime)
        spec.workers.min
        (that_fit spec runtime.memory_limit_bytes)
unfolding clamp_desired
desired_workers-IsAffordable fl provider spec runtime m =
    desired_workers-all fl provider spec runtime
      (λ r. IsAffordable r spec.workers.min (that_fit spec runtime.memory_limit_bytes))
      (λ n.
        cap-raise-IsAffordable
          (apply_resource_clamp fl (cap (raise n spec.workers.min) spec.workers.max) spec runtime)
          spec.workers.min spec.workers.max (that_fit spec runtime.memory_limit_bytes)
          (apply_resource_clamp-le fl (cap (raise n spec.workers.min) spec.workers.max) spec runtime
            m))
