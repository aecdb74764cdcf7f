-- ===== src/Workload/Model.antt =====
-- internal/workload/model.go, with the defaults of internal/workload/resolve.go. Go's `int` and
-- `time.Duration` are ℤ: signs are checked here. Durations are nanoseconds.
use eregion.Prelude.{ℕ, ◌*◌, Option, String, List}
use eregion.Prelude.Int.{ℤ, pos}

-- What the broker calls the queue; Eregion passes it on.
pub record QueueMetadata : Type 0 where
  pub transport : String
  pub name : String

pub record WorkerPolicy : Type 0 where
  pub min : ℤ
  pub max : ℤ

pub record ResourcePolicy : Type 0 where
  pub class' : String
  pub memory_mb : ℤ

pub record ScalingPolicy : Type 0 where
  pub strategy : String
  pub scale_up_cooldown : ℤ
  pub scale_down_idle_for : ℤ
  pub avg_job_duration : ℤ
  pub target_drain_time : ℤ

pub record WorkloadTemplate : Type 0 where
  pub name : String
  pub mode : String
  pub workers : WorkerPolicy
  pub resources : ResourcePolicy
  pub scaling : ScalingPolicy

pub record WorkerPolicyPatch : Type 0 where
  pub min : Option ℤ
  pub max : Option ℤ

pub record WorkloadSpec : Type 0 where
  pub name : String
  pub template : String
  pub mode : String
  pub command : List String
  pub queue : QueueMetadata
  pub workers : Option WorkerPolicyPatch
  pub resources : Option ResourcePolicy
  pub scaling : Option ScalingPolicy

pub record ResolvedWorkloadSpec : Type 0 where
  pub name : String
  pub template : String
  pub mode : String
  pub command : List String
  pub queue : QueueMetadata
  pub workers : WorkerPolicy
  pub resources : ResourcePolicy
  pub scaling : ScalingPolicy

pub record WorkloadMetrics : Type 0 where
  pub desired : ℤ
  pub running : ℤ
  pub idle : ℤ
  pub busy : ℤ
  pub draining : ℤ
  pub failed : ℤ
  pub backlog : ℤ

abbrev pub seconds : ℕ → ℤ
seconds n = pos (n * 1_000_000_000)

abbrev pub default_scaling : ScalingPolicy
default_scaling = record {
  strategy = "fixed";
  scale_up_cooldown = seconds 1;
  scale_down_idle_for = seconds 30;
  avg_job_duration = seconds 1;
  target_drain_time = seconds 10;
}

abbrev pub default_resources : ResourcePolicy
default_resources = record { class' = "balanced"; memory_mb = pos 0 }
