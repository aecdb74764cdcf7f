-- ===== src/Config/Types.antt =====
-- internal/config/config.go: the configuration. Go's `int` and `time.Duration` are ℤ, durations in
-- nanoseconds; the unsigned fields and file modes are ℕ.
use eregion.Prelude.{ℕ, Bool, Option, String, List}
use eregion.Prelude.Int.{ℤ}

-- What the configuration uses of the standard library: float64 with its order, and
-- `time.ParseDuration`. Nothing is assumed of them here.
pub record Std : Type 1 where
  pub F : Type 0
  pub of_tenths : ℕ → F
  pub below : F → F → Bool
  pub parse_duration : String → Option ℤ

pub record WorkloadWorkersConfig : Type 0 where
  pub min : Option ℤ
  pub max : Option ℤ

pub record WorkloadResourcesConfig : Type 0 where
  pub class' : Option String
  pub memory_mb : Option ℤ

pub record WorkloadScalingConfig : Type 0 where
  pub strategy : Option String
  pub scale_up_cooldown : Option String
  pub scale_down_idle_for : Option String
  pub avg_job_duration : Option String
  pub target_drain_time : Option String

pub record WorkloadQueueConfig : Type 0 where
  pub transport : Option String
  pub name : Option String

pub record WorkloadTemplateConfig : Type 0 where
  pub mode : String
  pub workers : Option WorkloadWorkersConfig
  pub resources : Option WorkloadResourcesConfig
  pub scaling : Option WorkloadScalingConfig

pub record WorkloadConfig : Type 0 where
  pub template : String
  pub mode : String
  pub command : List String
  pub queue : Option WorkloadQueueConfig
  pub workers : Option WorkloadWorkersConfig
  pub resources : Option WorkloadResourcesConfig
  pub scaling : Option WorkloadScalingConfig

pub record ServerConfig : Type 0 where
  pub host : String
  pub port : ℤ
  pub read_header_timeout : ℤ
  pub read_timeout : ℤ
  pub write_timeout : ℤ
  pub idle_timeout : ℤ
  pub shutdown_timeout : ℤ
  pub max_header_bytes : ℤ
  pub max_body_bytes : ℤ

pub record PhpConfig : Type 0 where
  pub binary : String
  pub worker_script : String
  pub working_directory : String
  pub environment : List (String × String)

pub record BackoffConfig (F : Type 0) : Type 0 where
  pub initial : ℤ
  pub maximum : ℤ
  pub multiplier : F
  pub jitter : F

pub record WorkersConfig (F : Type 0) : Type 0 where
  pub count : ℤ
  pub min_ready : ℤ
  pub max_requests : ℤ
  pub startup_timeout : ℤ
  pub handshake_timeout : ℤ
  pub request_timeout : ℤ
  pub acquire_timeout : ℤ
  pub shutdown_timeout : ℤ
  pub memory_limit_mb : ℤ
  pub restart_limit : ℤ
  pub restart_window : ℤ
  pub restart_backoff : BackoffConfig F

pub record SocketConfig : Type 0 where
  pub directory : String
  pub directory_permissions : ℕ
  pub socket_permissions : ℕ

pub record ProtocolConfig : Type 0 where
  pub version : ℕ
  pub max_frame_bytes : ℕ

pub record QueueConfig : Type 0 where
  pub capacity : ℤ
  pub retry_after : ℤ

pub record LoggingConfig : Type 0 where
  pub level : String
  pub format : String
  pub access_log : Bool
  pub include_request_headers : Bool
  pub include_request_body : Bool
  pub include_response_body : Bool

pub record EndpointConfig : Type 0 where
  pub enabled : Bool
  pub path : String

pub record Config (F : Type 0) : Type 0 where
  pub version : String
  pub server : ServerConfig
  pub php : PhpConfig
  pub workers : WorkersConfig F
  pub socket : SocketConfig
  pub protocol : ProtocolConfig
  pub queue : QueueConfig
  pub logging : LoggingConfig
  pub prefix : String
  pub metrics : EndpointConfig
  pub health : EndpointConfig
  pub readiness : EndpointConfig
  pub liveness : EndpointConfig
  pub workload_templates : List (String × WorkloadTemplateConfig)
  pub workloads : List (String × WorkloadConfig)
  pub has_explicit_workloads : Bool
  pub queue_capacity_derived : Bool
