-- ===== src/Config/Examples.antt =====
-- The configuration at concrete files and flags.
use text.Mathlib.Text.{◌==◌ as str_eq}
use eregion.Prelude.{ℕ, ◌≡◌, refl, true, Option, none, some, List, [], ◌∷◌, ltb, if◌then◌else◌}
use eregion.Prelude.Int.{ℤ, pos, negsuc}
use eregion.Prelude.Results.{Result, ok, fail, ◌>>=◌, is_ok, Ensures}
use eregion.Prelude.Texts.{trim_space, trim_slash}
use eregion.Prelude.Paths.{clean}
use eregion.Prelude.Maps.{lookup}
use eregion.Workload.Resolve.{resolve}
use eregion.Workload.Model.{seconds}
use eregion.Config.Types.{Std, WorkloadScalingConfig, WorkloadTemplateConfig, WorkloadConfig}
use eregion.Config.Defaults.{default_workers, derived_queue_capacity}
use eregion.Config.File.{FileConfig, FileServer, FileWorkers}
use eregion.Config.Apply.{negative_duration, apply_file}
use eregion.Config.Workloads.{resolve_workloads}
use eregion.Config.Validation.{validate}
use eregion.Config.Load.{decoded, Flags, default, load, serve_config}
use eregion.Config.Sized.{HasEightEach, serve_config-IsSized}
use eregion.Config.Validated.{IsValid, validate-IsValid}
use eregion.Config.Defaulted.{OrdersTenths, default-IsAccepted}
use eregion.Config.Refused.{accepts_file, apply_file-is_ok}

-- Tenths for floats, and two durations.
abbrev toy : Std
toy = record {
  F = ℕ;
  of_tenths = λ n. n;
  below = ltb;
  parse_duration = λ s.
      if str_eq s "2s" then some (seconds 2) else if str_eq s "-1ns" then some (negsuc 0) else none;
}

toy-OrdersTenths : OrdersTenths toy
toy-OrdersTenths = record { below_tenths = λ a b _ _. refl }

abbrev no_server : FileServer
no_server = record {
  host = none;
  port = none;
  read_header_timeout = none;
  read_timeout = none;
  write_timeout = none;
  idle_timeout = none;
  shutdown_timeout = none;
  max_header_bytes = none;
  max_body_bytes = none;
}

abbrev no_workers : FileWorkers ℕ
no_workers = record {
  count = none;
  min_ready = none;
  max_requests = none;
  startup_timeout = none;
  handshake_timeout = none;
  request_timeout = none;
  acquire_timeout = none;
  shutdown_timeout = none;
  memory_limit_mb = none;
  restart_limit = none;
  restart_window = none;
  restart_backoff = record { initial = none; maximum = none; multiplier = none; jitter = none };
}

abbrev empty_file : FileConfig ℕ
empty_file = record {
  version = "";
  server = no_server;
  php = record {
    binary = none;
    worker_script = none;
    working_directory = none;
    environment = none;
  };
  workers = no_workers;
  socket = record { directory = none; directory_permissions = none; socket_permissions = none };
  protocol = record {
    version = none;
    max_frame_bytes = none;
    transport = none;
    codec = none;
    handshake_timeout = none;
  };
  queue = record { capacity = none; retry_after = none };
  logging = record {
    level = none;
    format = none;
    access_log = none;
    include_request_headers = none;
    include_request_body = none;
    include_response_body = none;
  };
  prefix = none;
  metrics = record { enabled = none; path = none };
  health = record { enabled = none; path = none };
  readiness = record { enabled = none; path = none };
  liveness = record { enabled = none; path = none };
  workload_templates = none;
  workloads = none;
}

abbrev three_workers : FileConfig ℕ
three_workers = record empty_file {
  workers = record no_workers { count = some (pos 3); request_timeout = some "2s" };
}

abbrev four_flags : Flags
four_flags = record { host = ""; port = pos 0; workers = pos 4 }

abbrev from_result {ℓ κ μ} :
    {E : Type ℓ} {A : Type κ} {B : Type μ} → (A → B) → Result E A → Option B
from_result f (ok a) = some (f a)
from_result f (fail e) = none

-- The flag's four workers, with eight places each.
sized :
    from_result
      (λ c. c.workers.count ∷ c.queue.capacity ∷ [])
      (serve_config toy (pos 2) (decoded three_workers) four_flags)
    ≡ some (pos 4 ∷ pos 32 ∷ [])
unfolding serve_config ◌>>=◌ trim_space trim_slash clean default_workers derived_queue_capacity
sized = refl

serve_config-IsSized_example :
    Ensures HasEightEach (serve_config toy (pos 2) (decoded three_workers) four_flags)
serve_config-IsSized_example = serve_config-IsSized toy (pos 2) (decoded three_workers) four_flags

validate-IsValid_example : Ensures (IsValid toy) (validate toy (default toy (pos 2)))
validate-IsValid_example = validate-IsValid toy (default toy (pos 2))

default-IsAccepted_example : validate toy (default toy (negsuc 0)) ≡ ok (default toy (negsuc 0))
default-IsAccepted_example = default-IsAccepted toy toy-OrdersTenths (negsuc 0)

abbrev negative : FileConfig ℕ
negative = record empty_file { server = record no_server { idle_timeout = some "-1ns" } }

refused :
    apply_file toy (default toy (pos 2)) negative ≡ fail (negative_duration "server.idle_timeout")
unfolding apply_file ◌>>=◌
refused = refl

apply_file-is_ok_example :
    is_ok (apply_file toy (default toy (pos 2)) negative) ≡ accepts_file toy negative
apply_file-is_ok_example = apply_file-is_ok toy (default toy (pos 2)) negative

-- The defaults' paths hold the default prefix when the file's comes.
prefix_twice :
    from_result
      (λ c. c.metrics.path)
      (load toy (pos 2) (decoded (record empty_file { prefix = some "/ops" })))
    ≡ some "/ops/_eregion/metrics"
unfolding load ◌>>=◌ trim_space trim_slash clean default_workers derived_queue_capacity
prefix_twice = refl

abbrev only_strategy : WorkloadScalingConfig
only_strategy = record {
  strategy = some "backlog";
  scale_up_cooldown = none;
  scale_down_idle_for = none;
  avg_job_duration = none;
  target_drain_time = none;
}

abbrev slow_template : WorkloadTemplateConfig
slow_template = record {
  mode = "consumer";
  workers = none;
  resources = none;
  scaling = some (record only_strategy { scale_up_cooldown = some "2s" });
}

abbrev mails : Option WorkloadScalingConfig → WorkloadConfig
mails scaling = record {
  template = "slow";
  mode = "";
  command = "php" ∷ "mails.php" ∷ [];
  queue = none;
  workers = none;
  resources = none;
  scaling = scaling;
}

abbrev cooldowns : Option WorkloadScalingConfig → Option (List ℤ)
cooldowns scaling =
    from_result (λ rs. elim rs [ [] ↦ [] | r ∷ _ ↦ r.scaling.scale_up_cooldown ∷ [] ])
      (resolve_workloads toy (record (default toy (pos 2)) {
        workload_templates = ("slow", slow_template) ∷ [];
        workloads = ("mails", mails scaling) ∷ [];
        has_explicit_workloads = true;
      }))

-- Without a section of its own the workload has the template's two seconds; with one that leaves the
-- cooldown out, the default's one second.
inherited : cooldowns none ≡ some (seconds 2 ∷ [])
unfolding resolve_workloads ◌>>=◌ lookup resolve
inherited = refl

not_inherited : cooldowns (some only_strategy) ≡ some (seconds 1 ∷ [])
unfolding resolve_workloads ◌>>=◌ lookup resolve
not_inherited = refl
