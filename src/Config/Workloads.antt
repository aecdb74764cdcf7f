-- ===== src/Config/Workloads.antt =====
-- internal/config/workloads.go: the workloads of a configuration. Go visits a map in any order: that of
-- the list is one of them.
use eregion.Prelude.{Option, none, some, List, [], ◌∷◌, String}
use eregion.Prelude.Int.{ℤ, pos}
use eregion.Prelude.Results.{Result, ok, fail, ◌>>=◌}
use eregion.Workload.Model.{
  WorkerPolicy, WorkerPolicyPatch, ResourcePolicy, QueueMetadata, ScalingPolicy, WorkloadTemplate,
  WorkloadSpec, ResolvedWorkloadSpec, default_scaling, default_resources,
}
use eregion.Workload.Build.{BuildError, LegacyHttpInput, build_from_config}
use eregion.Config.Types.{
  Std, Config, WorkloadScalingConfig, WorkloadWorkersConfig, WorkloadResourcesConfig,
  WorkloadQueueConfig, WorkloadTemplateConfig, WorkloadConfig,
}
use eregion.Config.Apply.{or_keep}

pub data WorkloadsError : Type 0 where
  invalid_scaling : String → WorkloadsError
  in_template in_workload : String → WorkloadsError → WorkloadsError
  not_built : BuildError → WorkloadsError

abbrev pub within {ℓ} :
    {A : Type ℓ}
    → (WorkloadsError → WorkloadsError)
    → Result WorkloadsError A
    → Result WorkloadsError A
within wrap (ok a) = ok a
within wrap (fail e) = fail (wrap e)

abbrev pub parsed : String → Option ℤ → Result WorkloadsError ℤ
parsed field none = fail (invalid_scaling field)
parsed field (some d) = ok d

abbrev pub patched_workers : WorkerPolicy → Option WorkloadWorkersConfig → WorkerPolicy
patched_workers base none = base
patched_workers base (some w) = record {
  min = or_keep base.min w.min;
  max = or_keep base.max w.max;
}

abbrev pub patched_resources : ResourcePolicy → Option WorkloadResourcesConfig → ResourcePolicy
patched_resources base none = base
patched_resources base (some r) = record {
  class' = or_keep base.class' r.class';
  memory_mb = or_keep base.memory_mb r.memory_mb;
}

abbrev pub queue_of : Option WorkloadQueueConfig → QueueMetadata
queue_of none = record { transport = ""; name = "" }
queue_of (some q) = record { transport = or_keep "" q.transport; name = or_keep "" q.name }

abbrev pub workers_patch : Option WorkloadWorkersConfig → Option WorkerPolicyPatch
workers_patch none = none
workers_patch (some w) = some (record { min = w.min; max = w.max })

abbrev pub resources_patch : Option WorkloadResourcesConfig → Option ResourcePolicy
resources_patch none = none
resources_patch (some r) =
    some (record { class' = or_keep "" r.class'; memory_mb = or_keep (pos 0) r.memory_mb })

module _ (std : Std) where
  abbrev pub parse_or : ℤ → Option String → String → Result WorkloadsError ℤ
  parse_or base none field = ok base
  parse_or base (some s) field = parsed field (std.parse_duration s)

  unfoldable pub convert_scaling : WorkloadScalingConfig → Result WorkloadsError ScalingPolicy
  convert_scaling s = do
    up ← parse_or default_scaling.scale_up_cooldown s.scale_up_cooldown "scale_up_cooldown"
    down ← parse_or default_scaling.scale_down_idle_for s.scale_down_idle_for "scale_down_idle_for"
    avg ← parse_or default_scaling.avg_job_duration s.avg_job_duration "avg_job_duration"
    drain ← parse_or default_scaling.target_drain_time s.target_drain_time "target_drain_time"
    ok (record {
      strategy = or_keep default_scaling.strategy s.strategy;
      scale_up_cooldown = up;
      scale_down_idle_for = down;
      avg_job_duration = avg;
      target_drain_time = drain;
    })

  abbrev pub template_scaling : Option WorkloadScalingConfig → Result WorkloadsError ScalingPolicy
  template_scaling none = ok default_scaling
  template_scaling (some s) = convert_scaling s

  abbrev pub workload_scaling :
      Option WorkloadScalingConfig → Result WorkloadsError (Option ScalingPolicy)
  workload_scaling none = ok none
  workload_scaling (some s) = convert_scaling s >>= (λ sc. ok (some sc))

  unfoldable pub convert_template :
      String → WorkloadTemplateConfig → Result WorkloadsError WorkloadTemplate
  unfolding convert_scaling
  convert_template name tpl = do
    scaling ← within (in_template name) (template_scaling tpl.scaling)
    ok (record {
      name = name;
      mode = tpl.mode;
      workers = patched_workers (record { min = pos 1; max = pos 1 }) tpl.workers;
      resources = patched_resources default_resources tpl.resources;
      scaling = scaling;
    })

  unfoldable pub convert_workload : String → WorkloadConfig → Result WorkloadsError WorkloadSpec
  unfolding convert_scaling
  convert_workload name w = do
    scaling ← within (in_workload name) (workload_scaling w.scaling)
    ok (record {
      name = name;
      template = w.template;
      mode = w.mode;
      command = w.command;
      queue = queue_of w.queue;
      workers = workers_patch w.workers;
      resources = resources_patch w.resources;
      scaling = scaling;
    })

  unfoldable pub convert_templates :
      List (String × WorkloadTemplateConfig)
      → Result WorkloadsError (List (String × WorkloadTemplate))
  unfolding convert_template
  convert_templates [] = ok []
  convert_templates ((name, tpl) ∷ rest) = do
    wt ← convert_template name tpl
    others ← convert_templates rest
    ok ((name, wt) ∷ others)

  unfoldable pub convert_workloads :
      List (String × WorkloadConfig) → Result WorkloadsError (List WorkloadSpec)
  unfolding convert_workload
  convert_workloads [] = ok []
  convert_workloads ((name, w) ∷ rest) = do
    spec ← convert_workload name w
    others ← convert_workloads rest
    ok (spec ∷ others)

  abbrev pub legacy_input : Config std.F → LegacyHttpInput
  legacy_input c = record {
    name = "http";
    php_binary = c.php.binary;
    worker_script = c.php.worker_script;
    worker_count = c.workers.count;
    memory_limit_mb = c.workers.memory_limit_mb;
  }

  abbrev pub built :
      Result BuildError (List ResolvedWorkloadSpec)
      → Result WorkloadsError (List ResolvedWorkloadSpec)
  built (ok rs) = ok rs
  built (fail e) = fail (not_built e)

  unfoldable pub resolve_workloads :
      Config std.F → Result WorkloadsError (List ResolvedWorkloadSpec)
  unfolding convert_templates convert_workloads build_from_config
  resolve_workloads c = do
    templates ← convert_templates c.workload_templates
    specs ← convert_workloads c.workloads
    built (build_from_config templates specs (legacy_input c) c.has_explicit_workloads)
