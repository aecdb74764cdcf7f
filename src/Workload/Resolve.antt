-- ===== src/Workload/Resolve.antt =====
-- internal/workload/resolve.go: `Resolve` and `mergeScaling`.
use text.Mathlib.Text.{◌==◌ as str_eq}
use eregion.Prelude.{
  Bool, true, false, not, ◌&&◌, ◌||◌, Option, none, some, List, [], ◌∷◌, if◌then◌else◌, String,
}
use eregion.Prelude.Int.{ℤ, pos, ltb_ℤ}
use eregion.Prelude.Maps.{lookup}
use eregion.Prelude.Texts.{is_empty}
use eregion.Prelude.Results.{Result, ok, fail, first_error}
use eregion.Workload.Model.{
  WorkerPolicy, ResourcePolicy, ScalingPolicy, WorkloadTemplate, WorkerPolicyPatch, WorkloadSpec,
  ResolvedWorkloadSpec, default_scaling, default_resources,
}

pub data ResolveError : Type 0 where
  name_required mode_required unsupported_mode max_below_min min_negative : ResolveError
  command_required invalid_class unknown_strategy : ResolveError
  unknown_template : String → ResolveError

abbrev pub or_text : String → String → String
or_text over base = if is_empty over then base else over

abbrev pub or_positive : ℤ → ℤ → ℤ
or_positive over base = if ltb_ℤ (pos 0) over then over else base

abbrev pub or_given {ℓ} : {A : Type ℓ} → Option A → A → A
or_given none base = base
or_given (some v) base = v

unfoldable pub merge_scaling : ScalingPolicy → ScalingPolicy → ScalingPolicy
merge_scaling base over = record {
  strategy = or_text over.strategy base.strategy;
  scale_up_cooldown = or_positive over.scale_up_cooldown base.scale_up_cooldown;
  scale_down_idle_for = or_positive over.scale_down_idle_for base.scale_down_idle_for;
  avg_job_duration = or_positive over.avg_job_duration base.avg_job_duration;
  target_drain_time = or_positive over.target_drain_time base.target_drain_time;
}

abbrev pub initial : WorkloadSpec → ResolvedWorkloadSpec
initial spec = record {
  name = spec.name;
  template = spec.template;
  mode = spec.mode;
  command = spec.command;
  queue = spec.queue;
  workers = record { min = pos 1; max = pos 1 };
  resources = default_resources;
  scaling = default_scaling;
}

unfoldable pub apply_template : ResolvedWorkloadSpec → WorkloadTemplate → ResolvedWorkloadSpec
unfolding merge_scaling
apply_template out tpl = record out {
  mode = or_text out.mode tpl.mode;
  workers = tpl.workers;
  resources = record {
    class' = or_text tpl.resources.class' "balanced";
    memory_mb = tpl.resources.memory_mb;
  };
  scaling = merge_scaling default_scaling tpl.scaling;
}

-- `out` with the template's values, where the workload names one.
unfoldable pub with_template :
    WorkloadSpec → List (String × WorkloadTemplate) → Result ResolveError ResolvedWorkloadSpec
unfolding apply_template
with_template spec templates =
    if is_empty spec.template then ok (initial spec) else elim (lookup templates spec.template) [
      | none ↦ fail (unknown_template spec.template)
      | some tpl ↦ ok (apply_template (initial spec) tpl)
    ]

abbrev pub patch_workers : Option WorkerPolicyPatch → WorkerPolicy → WorkerPolicy
patch_workers none base = base
patch_workers (some p) base = record {
  min = or_given p.min base.min;
  max = or_given p.max base.max;
}

abbrev pub patch_resources : Option ResourcePolicy → ResourcePolicy → ResourcePolicy
patch_resources none base = base
patch_resources (some p) base = record {
  class' = or_text p.class' base.class';
  memory_mb = or_positive p.memory_mb base.memory_mb;
}

abbrev pub patch_scaling : Option ScalingPolicy → ScalingPolicy → ScalingPolicy
patch_scaling none base = base
patch_scaling (some p) base = merge_scaling base p

unfoldable pub apply_overrides : WorkloadSpec → ResolvedWorkloadSpec → ResolvedWorkloadSpec
apply_overrides spec out = record out {
  mode = or_text spec.mode out.mode;
  workers = patch_workers spec.workers out.workers;
  resources = patch_resources spec.resources out.resources;
  scaling = patch_scaling spec.scaling out.scaling;
}

abbrev pub is_known : String → String → String → String → Bool
is_known s a b c = str_eq s a || (str_eq s b || (str_eq s c || is_empty s))

abbrev pub no_entries {ℓ} : {A : Type ℓ} → List A → Bool
no_entries [] = true
no_entries (_ ∷ _) = false

-- The checks at the end, in the code's order.
abbrev pub checks : ResolvedWorkloadSpec → List (Bool × ResolveError)
checks out =
    (is_empty out.mode, mode_required)
    ∷ (not (str_eq out.mode "http") && not (str_eq out.mode "consumer"), unsupported_mode)
    ∷ (ltb_ℤ out.workers.max out.workers.min, max_below_min)
    ∷ (ltb_ℤ out.workers.min (pos 0), min_negative)
    ∷ (str_eq out.mode "consumer" && no_entries out.command, command_required)
    ∷ (not (is_known out.resources.class' "io" "cpu" "balanced"), invalid_class)
    ∷ (not (is_known out.scaling.strategy "fixed" "backlog" "resources"), unknown_strategy)
    ∷ []

abbrev pub fill_defaults : ResolvedWorkloadSpec → ResolvedWorkloadSpec
fill_defaults out = record out {
  resources = record out.resources { class' = or_text out.resources.class' "balanced" };
  scaling = record out.scaling { strategy = or_text out.scaling.strategy "fixed" };
}

unfoldable pub check : ResolvedWorkloadSpec → Result ResolveError ResolvedWorkloadSpec
check out = elim (first_error (checks out)) [ some e ↦ fail e | none ↦ ok (fill_defaults out) ]

unfoldable pub resolve :
    WorkloadSpec → List (String × WorkloadTemplate) → Result ResolveError ResolvedWorkloadSpec
unfolding with_template apply_overrides check
resolve spec templates =
    if is_empty spec.name then fail name_required else elim (with_template spec templates) [
      | fail e ↦ fail e
      | ok out ↦ check (apply_overrides spec out)
    ]
