-- ===== src/Config/File.antt =====
-- internal/config/load.go: what a YAML file holds; `none` is a key that it leaves out.
use eregion.Prelude.{ℕ, Bool, Option, String, List}
use eregion.Prelude.Int.{ℤ}
use eregion.Config.Types.{WorkloadTemplateConfig, WorkloadConfig}

pub record FileServer : Type 0 where
  pub host : Option String
  pub port : Option ℤ
  pub read_header_timeout : Option String
  pub read_timeout : Option String
  pub write_timeout : Option String
  pub idle_timeout : Option String
  pub shutdown_timeout : Option String
  pub max_header_bytes : Option ℤ
  pub max_body_bytes : Option ℤ

pub record FilePhp : Type 0 where
  pub binary : Option String
  pub worker_script : Option String
  pub working_directory : Option String
  pub environment : Option (List (String × String))

pub record FileBackoff (F : Type 0) : Type 0 where
  pub initial : Option String
  pub maximum : Option String
  pub multiplier : Option F
  pub jitter : Option F

pub record FileWorkers (F : Type 0) : Type 0 where
  pub count : Option ℤ
  pub min_ready : Option ℤ
  pub max_requests : Option ℤ
  pub startup_timeout : Option String
  pub handshake_timeout : Option String
  pub request_timeout : Option String
  pub acquire_timeout : Option String
  pub shutdown_timeout : Option String
  pub memory_limit_mb : Option ℤ
  pub restart_limit : Option ℤ
  pub restart_window : Option String
  pub restart_backoff : FileBackoff F

pub record FileSocket : Type 0 where
  pub directory : Option String
  pub directory_permissions : Option String
  pub socket_permissions : Option String

pub record FileProtocol : Type 0 where
  pub version : Option ℕ
  pub max_frame_bytes : Option ℕ
  pub transport : Option String
  pub codec : Option String
  pub handshake_timeout : Option String

pub record FileQueue : Type 0 where
  pub capacity : Option ℤ
  pub retry_after : Option String

pub record FileLogging : Type 0 where
  pub level : Option String
  pub format : Option String
  pub access_log : Option Bool
  pub include_request_headers : Option Bool
  pub include_request_body : Option Bool
  pub include_response_body : Option Bool

pub record FileEndpoint : Type 0 where
  pub enabled : Option Bool
  pub path : Option String

pub record FileConfig (F : Type 0) : Type 0 where
  pub version : String
  pub server : FileServer
  pub php : FilePhp
  pub workers : FileWorkers F
  pub socket : FileSocket
  pub protocol : FileProtocol
  pub queue : FileQueue
  pub logging : FileLogging
  pub prefix : Option String
  pub metrics : FileEndpoint
  pub health : FileEndpoint
  pub readiness : FileEndpoint
  pub liveness : FileEndpoint
  pub workload_templates : Option (List (String × WorkloadTemplateConfig))
  pub workloads : Option (List (String × WorkloadConfig))
