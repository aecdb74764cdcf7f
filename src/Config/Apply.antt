-- ===== src/Config/Apply.antt =====
-- internal/config/load.go: `applyFile`, one function for each section of the file, in the order of
-- the code; the first error ends it.
use Prim.Native.Char.{code}
use eregion.Prelude.{
  is_given, ℕ, ◌+◌, ◌*◌, ◌-◌, ◌^◌, Bool, true, false, ◌||◌, ◌&&◌, Option, none, some, String,
  if◌then◌else◌, leb, ltb,
}
use eregion.Prelude.Int.{ℤ, pos, ltb_ℤ}
use eregion.Prelude.Results.{Result, ok, fail, ◌>>=◌}
use eregion.Prelude.Texts.{is_empty, trim_space}
use eregion.Config.Types.{
  Std, Config, ServerConfig, PhpConfig, BackoffConfig, WorkersConfig, SocketConfig, ProtocolConfig,
  LoggingConfig, EndpointConfig,
}
use eregion.Config.File.{
  FileServer, FilePhp, FileBackoff, FileWorkers, FileSocket, FileProtocol, FileLogging,
  FileEndpoint, FileConfig,
}
use eregion.Config.Defaults.{derived_queue_capacity}

pub data FileError : Type 0 where
  invalid_duration negative_duration empty_permission invalid_permission : String → FileError
  fixed_protocol moved_timeout : FileError

-- `if raw != nil { *dst = *raw }`
abbrev pub or_keep {ℓ} : {A : Type ℓ} → A → Option A → A
or_keep kept none = kept
or_keep kept (some v) = v

abbrev pub accept_duration : String → Option ℤ → Result FileError ℤ
accept_duration field none = fail (invalid_duration field)
accept_duration field (some d) = if ltb_ℤ d (pos 0) then fail (negative_duration field) else ok d

-- The octal digits of a text, as a number.
abbrev pub octal : ℕ → String → Option ℕ
octal n String.[] = some n
octal n (String.◌∷◌ c s) =
    let rest = octal (n * 8 + (code c - b'0')) s in
    if leb b'0' (code c) && leb (code c) b'7' then rest else none

abbrev pub accept_octal : String → Option ℕ → Result FileError ℕ
accept_octal field none = fail (invalid_permission field)
accept_octal field (some n) = if ltb n (2 ^ 32) then ok n else fail (invalid_permission field)

unfoldable pub parse_permission : String → String → Result FileError ℕ
parse_permission raw field =
    let s = trim_space raw in
    if is_empty s then fail (empty_permission field) else accept_octal field (octal 0 s)

unfoldable pub apply_permission : ℕ → Option String → String → Result FileError ℕ
unfolding parse_permission
apply_permission kept none field = ok kept
apply_permission kept (some raw) field = parse_permission raw field

unfoldable pub apply_php : PhpConfig → FilePhp → PhpConfig
apply_php c f = record {
  binary = or_keep c.binary f.binary;
  worker_script = or_keep c.worker_script f.worker_script;
  working_directory = or_keep c.working_directory f.working_directory;
  environment = or_keep c.environment f.environment;
}

unfoldable pub apply_socket : SocketConfig → FileSocket → Result FileError SocketConfig
unfolding apply_permission
apply_socket c f = do
  directory ←
      apply_permission c.directory_permissions f.directory_permissions
        "socket.directory_permissions"
  socket ← apply_permission c.socket_permissions f.socket_permissions "socket.socket_permissions"
  ok (record {
    directory = or_keep c.directory f.directory;
    directory_permissions = directory;
    socket_permissions = socket;
  })

unfoldable pub apply_protocol : ProtocolConfig → FileProtocol → Result FileError ProtocolConfig
apply_protocol c f =
    if is_given f.transport || is_given f.codec
    then fail fixed_protocol
    else if is_given f.handshake_timeout
    then fail moved_timeout
    else ok (record {
      version = or_keep c.version f.version;
      max_frame_bytes = or_keep c.max_frame_bytes f.max_frame_bytes;
    })

unfoldable pub apply_logging : LoggingConfig → FileLogging → LoggingConfig
apply_logging c f = record {
  level = or_keep c.level f.level;
  format = or_keep c.format f.format;
  access_log = or_keep c.access_log f.access_log;
  include_request_headers = or_keep c.include_request_headers f.include_request_headers;
  include_request_body = or_keep c.include_request_body f.include_request_body;
  include_response_body = or_keep c.include_response_body f.include_response_body;
}

unfoldable pub apply_endpoint : EndpointConfig → FileEndpoint → EndpointConfig
apply_endpoint c f = record { enabled = or_keep c.enabled f.enabled; path = or_keep c.path f.path }

-- The queue's capacity, and whether it is derived: the file's, or eight for each of the file's
-- workers, or what was there.
abbrev pub choose_capacity : ℤ → Bool → Option ℤ → Option ℤ → ℤ × Bool
choose_capacity kept derived (some n) count = (n, false)
choose_capacity kept derived none (some n) = (derived_queue_capacity n, true)
choose_capacity kept derived none none = (kept, derived)

module _ (std : Std) where
  unfoldable pub apply_duration : ℤ → Option String → String → Result FileError ℤ
  apply_duration kept none field = ok kept
  apply_duration kept (some raw) field = accept_duration field (std.parse_duration raw)

  unfoldable pub apply_server : ServerConfig → FileServer → Result FileError ServerConfig
  unfolding apply_duration
  apply_server c f = do
    header ← apply_duration c.read_header_timeout f.read_header_timeout "server.read_header_timeout"
    read ← apply_duration c.read_timeout f.read_timeout "server.read_timeout"
    write ← apply_duration c.write_timeout f.write_timeout "server.write_timeout"
    idle ← apply_duration c.idle_timeout f.idle_timeout "server.idle_timeout"
    shutdown ← apply_duration c.shutdown_timeout f.shutdown_timeout "server.shutdown_timeout"
    ok (record {
      host = or_keep c.host f.host;
      port = or_keep c.port f.port;
      read_header_timeout = header;
      read_timeout = read;
      write_timeout = write;
      idle_timeout = idle;
      shutdown_timeout = shutdown;
      max_header_bytes = or_keep c.max_header_bytes f.max_header_bytes;
      max_body_bytes = or_keep c.max_body_bytes f.max_body_bytes;
    })

  unfoldable pub apply_backoff :
      BackoffConfig std.F → FileBackoff std.F → Result FileError (BackoffConfig std.F)
  unfolding apply_duration
  apply_backoff c f = do
    initial ← apply_duration c.initial f.initial "workers.restart_backoff.initial"
    maximum ← apply_duration c.maximum f.maximum "workers.restart_backoff.maximum"
    ok (record {
      initial = initial;
      maximum = maximum;
      multiplier = or_keep c.multiplier f.multiplier;
      jitter = or_keep c.jitter f.jitter;
    })

  unfoldable pub apply_workers :
      WorkersConfig std.F → FileWorkers std.F → Result FileError (WorkersConfig std.F)
  unfolding apply_duration apply_backoff
  apply_workers c f = do
    startup ← apply_duration c.startup_timeout f.startup_timeout "workers.startup_timeout"
    handshake ← apply_duration c.handshake_timeout f.handshake_timeout "workers.handshake_timeout"
    request ← apply_duration c.request_timeout f.request_timeout "workers.request_timeout"
    acquire ← apply_duration c.acquire_timeout f.acquire_timeout "workers.acquire_timeout"
    shutdown ← apply_duration c.shutdown_timeout f.shutdown_timeout "workers.shutdown_timeout"
    window ← apply_duration c.restart_window f.restart_window "workers.restart_window"
    backoff ← apply_backoff c.restart_backoff f.restart_backoff
    ok (record {
      count = or_keep c.count f.count;
      min_ready = or_keep c.min_ready f.min_ready;
      max_requests = or_keep c.max_requests f.max_requests;
      startup_timeout = startup;
      handshake_timeout = handshake;
      request_timeout = request;
      acquire_timeout = acquire;
      shutdown_timeout = shutdown;
      memory_limit_mb = or_keep c.memory_limit_mb f.memory_limit_mb;
      restart_limit = or_keep c.restart_limit f.restart_limit;
      restart_window = window;
      restart_backoff = backoff;
    })

  -- The queue's section, beside the file's number of workers.
  unfoldable pub apply_file : Config std.F → FileConfig std.F → Result FileError (Config std.F)
  unfolding apply_server apply_php apply_workers apply_socket apply_protocol apply_logging
      apply_endpoint
  apply_file c f = do
    server ← apply_server c.server f.server
    workers ← apply_workers c.workers f.workers
    socket ← apply_socket c.socket f.socket
    protocol ← apply_protocol c.protocol f.protocol
    retry ← apply_duration c.queue.retry_after f.queue.retry_after "queue.retry_after"
    let chosen =
        choose_capacity c.queue.capacity c.queue_capacity_derived f.queue.capacity f.workers.count
    ok (record {
      version = if is_empty f.version then c.version else f.version;
      server = server;
      php = apply_php c.php f.php;
      workers = workers;
      socket = socket;
      protocol = protocol;
      queue = record { capacity = chosen.0; retry_after = retry };
      logging = apply_logging c.logging f.logging;
      prefix = or_keep c.prefix f.prefix;
      metrics = apply_endpoint c.metrics f.metrics;
      health = apply_endpoint c.health f.health;
      readiness = apply_endpoint c.readiness f.readiness;
      liveness = apply_endpoint c.liveness f.liveness;
      workload_templates = or_keep c.workload_templates f.workload_templates;
      workloads = or_keep c.workloads f.workloads;
      has_explicit_workloads = is_given f.workloads || c.has_explicit_workloads;
      queue_capacity_derived = chosen.1;
    })
