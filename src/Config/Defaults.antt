-- ===== src/Config/Defaults.antt =====
-- internal/config: `Default` up to its last step, and `DerivedQueueCapacity`. The number of CPUs is an
-- argument.
use eregion.Prelude.{ℕ, ◌*◌, ◌-◌, ◌%◌, ◌^◌, ltb, true, false, [], if◌then◌else◌}
use eregion.Prelude.Int.{ℤ, pos, negsuc, pos_part, ltb_ℤ}
use eregion.Config.Types.{Std, Config}

abbrev pub milliseconds : ℕ → ℤ
milliseconds n = pos (n * 1_000_000)

abbrev pub seconds : ℕ → ℤ
seconds n = pos (n * 1_000_000_000)

-- What an `int` of 64 bits makes of a number that is not negative.
unfoldable pub wrap_int : ℕ → ℤ
wrap_int n = let m = n % 2 ^ 64 in if ltb m (2 ^ 63) then pos m else negsuc (2 ^ 64 - m - 1)

unfoldable pub derived_queue_capacity : ℤ → ℤ
unfolding wrap_int
derived_queue_capacity count = if ltb_ℤ count (pos 1) then pos 8 else wrap_int (pos_part count * 8)

unfoldable pub default_workers : ℤ → ℤ
default_workers cpus =
    let n = (if ltb_ℤ (pos 8) cpus then pos 8 else cpus) in if ltb_ℤ n (pos 1) then pos 1 else n

-- The configuration before `ResolveEndpoints`.
abbrev pub bare_default : (std : Std) → ℤ → Config std.F
bare_default std cpus = record {
  version = "1";
  server = record {
    host = "127.0.0.1";
    port = pos 8080;
    read_header_timeout = seconds 10;
    read_timeout = seconds 30;
    write_timeout = seconds 30;
    idle_timeout = seconds 60;
    shutdown_timeout = seconds 20;
    max_header_bytes = pos 1_048_576;
    max_body_bytes = pos 10_485_760;
  };
  php = record {
    binary = "php";
    worker_script = "bin/eregion-worker";
    working_directory = ".";
    environment = [];
  };
  workers = record {
    count = default_workers cpus;
    min_ready = pos 1;
    max_requests = pos 1000;
    startup_timeout = seconds 10;
    handshake_timeout = seconds 5;
    request_timeout = seconds 30;
    acquire_timeout = seconds 2;
    shutdown_timeout = seconds 5;
    memory_limit_mb = pos 256;
    restart_limit = pos 5;
    restart_window = seconds 30;
    restart_backoff = record {
      initial = milliseconds 100;
      maximum = seconds 5;
      multiplier = std.of_tenths 20;
      jitter = std.of_tenths 2;
    };
  };
  socket = record {
    directory = "/tmp/eregion";
    directory_permissions = 448;
    socket_permissions = 384;
  };
  protocol = record { version = 1; max_frame_bytes = 16_777_216 };
  queue = record {
    capacity = derived_queue_capacity (default_workers cpus);
    retry_after = seconds 1;
  };
  logging = record {
    level = "info";
    format = "text";
    access_log = true;
    include_request_headers = false;
    include_request_body = false;
    include_response_body = false;
  };
  prefix = "/_eregion";
  metrics = record { enabled = true; path = "/metrics" };
  health = record { enabled = true; path = "/health" };
  readiness = record { enabled = true; path = "/ready" };
  liveness = record { enabled = true; path = "/live" };
  workload_templates = [];
  workloads = [];
  has_explicit_workloads = false;
  queue_capacity_derived = true;
}
