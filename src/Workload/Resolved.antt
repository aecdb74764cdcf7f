-- ===== src/Workload/Resolved.antt =====
-- What a resolved workload is known to be.
use mathlib.Core.Path.{subst}
use eregion.Prelude.{
  ◌<◌, ◌≡◌, refl, sym, Option, none, some, List, String, ◌⊎◌, inl, inr, ◌≢◌, Bool-cases,
  Option-cases, arith, length,
}
use eregion.Prelude.Int.{ℤ, pos, ◌≤ℤ◌, pos_part}
use eregion.Prelude.Maps.{lookup, str_eq→ne}
use eregion.Prelude.Results.{ok, Result-cases}
use eregion.Workload.Model.{
  ScalingPolicy, WorkloadTemplate, WorkloadSpec, ResolvedWorkloadSpec, default_scaling,
}
use eregion.Workload.Resolve.{
  or_positive, merge_scaling, initial, apply_template, with_template, apply_overrides,
  fill_defaults, resolve, patch_scaling,
}
use eregion.Prelude.Texts.{is_empty}
use eregion.Workload.Checked.{IsOneOf, known-IsOneOf, Accepted, check-Accepted}

abbrev pub IsPositive : ℤ → Type 0
IsPositive n = 0 < pos_part n

pub record IsTimed (p : ScalingPolicy) : Type 0 where
  pub cooldown : IsPositive p.scale_up_cooldown
  pub idle_for : IsPositive p.scale_down_idle_for
  pub job : IsPositive p.avg_job_duration
  pub drain : IsPositive p.target_drain_time

pub record IsResolved (spec : WorkloadSpec) (out : ResolvedWorkloadSpec) : Type 0 where
  pub name : out.name ≡ spec.name
  pub named : spec.name ≢ ""
  pub command : out.command ≡ spec.command
  pub mode : (out.mode ≡ "http") ⊎ ((out.mode ≡ "consumer") × (0 < length spec.command))
  pub min : pos 0 ≤ℤ out.workers.min
  pub max : out.workers.min ≤ℤ out.workers.max
  pub class' : IsOneOf out.resources.class' "io" "cpu" "balanced"
  pub strategy : IsOneOf out.scaling.strategy "fixed" "backlog" "resources"
  pub timed : IsTimed out.scaling

or_positive-IsPositive : (a b : ℤ) → IsPositive b → IsPositive (or_positive a b)
or_positive-IsPositive a b h = ground arith

merge_scaling-IsTimed :
    (base over : ScalingPolicy) → IsTimed base → IsTimed (merge_scaling base over)
unfolding merge_scaling
merge_scaling-IsTimed base over t = record {
  cooldown = or_positive-IsPositive over.scale_up_cooldown base.scale_up_cooldown t.cooldown;
  idle_for = or_positive-IsPositive over.scale_down_idle_for base.scale_down_idle_for t.idle_for;
  job = or_positive-IsPositive over.avg_job_duration base.avg_job_duration t.job;
  drain = or_positive-IsPositive over.target_drain_time base.target_drain_time t.drain;
}

default-IsTimed : IsTimed default_scaling
default-IsTimed = record {
  cooldown = omega arith;
  idle_for = omega arith;
  job = omega arith;
  drain = omega arith;
}

-- What the template and the overrides leave alone, and that the durations stay positive.
record IsKin (spec : WorkloadSpec) (out : ResolvedWorkloadSpec) : Type 0 where
  name : out.name ≡ spec.name
  command : out.command ≡ spec.command
  timed : IsTimed out.scaling

initial-IsKin : (spec : WorkloadSpec) → IsKin spec (initial spec)
initial-IsKin spec = record { name = refl; command = refl; timed = default-IsTimed }

template-IsKin :
    (spec : WorkloadSpec) (tpl : WorkloadTemplate) → IsKin spec (apply_template (initial spec) tpl)
unfolding apply_template
template-IsKin spec tpl = record {
  name = refl;
  command = refl;
  timed = merge_scaling-IsTimed default_scaling tpl.scaling default-IsTimed;
}

with_template-IsKin :
    (spec : WorkloadSpec) (templates : List (String × WorkloadTemplate))
    {out : ResolvedWorkloadSpec}
    → with_template spec templates ≡ ok out
    → IsKin spec out
unfolding with_template
with_template-IsKin spec templates h = elim (Bool-cases (is_empty spec.template)) [
  | inl e ↦ subst (IsKin spec) (cc (h, e)) (initial-IsKin spec)
  | inr e ↦ elim (Option-cases (lookup templates spec.template)) [
    | inl f ↦ absurd (cc (h, e, f))
    | inr (tpl, f) ↦ subst (IsKin spec) (cc (h, e, f)) (template-IsKin spec tpl)
  ]
]

patch_scaling-IsTimed :
    (p : Option ScalingPolicy) (base : ScalingPolicy)
    → IsTimed base
    → IsTimed (patch_scaling p base)
patch_scaling-IsTimed none base t = t
patch_scaling-IsTimed (some p) base t = merge_scaling-IsTimed base p t

apply_overrides-IsKin :
    (spec : WorkloadSpec) (out : ResolvedWorkloadSpec)
    → IsKin spec out
    → IsKin spec (apply_overrides spec out)
unfolding apply_overrides
apply_overrides-IsKin spec out k = record {
  name = k.name;
  command = k.command;
  timed = patch_scaling-IsTimed spec.scaling out.scaling k.timed;
}

filled-IsResolved :
    (spec : WorkloadSpec) (out : ResolvedWorkloadSpec)
    → spec.name ≢ ""
    → IsKin spec out
    → Accepted out
    → IsResolved spec (fill_defaults out)
filled-IsResolved spec out n k a = record {
  name = k.name;
  named = n;
  command = k.command;
  mode =
      subst (λ c. (out.mode ≡ "http") ⊎ ((out.mode ≡ "consumer") × (0 < length c))) k.command
        a.mode;
  min = a.min;
  max = a.max;
  class' =
      known-IsOneOf out.resources.class' "io" "cpu" "balanced" "balanced" a.class' (inr (inr refl));
  strategy =
      known-IsOneOf out.scaling.strategy "fixed" "backlog" "resources" "fixed" a.strategy
        (inl refl);
  timed = record {
    cooldown = k.timed.cooldown;
    idle_for = k.timed.idle_for;
    job = k.timed.job;
    drain = k.timed.drain;
  };
}

-- A workload that is resolved has its own name and command, and a name at all; its mode is `http`, or
-- `consumer` with a command; 0 ≤ min ≤ max; its resource class and its strategy are among the three
-- known; and all four durations are positive, so no strategy meets a missing one.
pub resolve-IsResolved :
    (spec : WorkloadSpec) (templates : List (String × WorkloadTemplate))
    (out : ResolvedWorkloadSpec)
    → resolve spec templates ≡ ok out
    → IsResolved spec out
unfolding resolve
resolve-IsResolved spec templates out h = elim (Bool-cases (is_empty spec.name)) [
  | inl e ↦ absurd (cc (h, e))
  | inr e ↦ elim (Result-cases (with_template spec templates)) [
    | inr (x, f) ↦ absurd (cc (h, e, f))
    | inl (mid, f) ↦
        let (a, r) = check-Accepted {out = apply_overrides spec mid} {r = out} (cc (h, e, f)) in
        subst (IsResolved spec) (sym r) (
          filled-IsResolved spec (apply_overrides spec mid) (str_eq→ne e)
            (apply_overrides-IsKin spec mid (with_template-IsKin spec templates f)) a)
  ]
]
