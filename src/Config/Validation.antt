-- ===== src/Config/Validation.antt =====
-- internal/config/validation.go: `Validate`, which also rewrites the endpoints' paths.
use Prim.Native.Char.{code}
use text.Mathlib.Text.{◌==◌ as str_eq, starts_with}
use eregion.Prelude.{
  ◌≡◌, ℕ, ◌+◌, Bool, true, false, not, ◌||◌, ◌&&◌, Option, none, some, List, [], ◌∷◌, String,
  if◌then◌else◌, leb, ◌==◌,
}
use eregion.Prelude.Int.{ℤ, pos, ltb_ℤ}
use eregion.Prelude.Results.{Result, ok, fail, first_error, ◌>>=◌}
use eregion.Prelude.Texts.{is_empty, trim_space}
use eregion.Config.Types.{Std, Config, ServerConfig, PhpConfig, WorkersConfig, LoggingConfig}
use eregion.Config.Paths.{PathError, resolve_endpoints, endpoints, collision}
use eregion.Config.Workloads.{WorkloadsError, resolve_workloads}

pub data ValidationError : Type 0 where
  invalid : String → ValidationError
  bad_path : PathError → ValidationError
  bad_workloads : WorkloadsError → ValidationError

-- The code point that `strings.ToLower` puts in place of one. Beyond ASCII only U+0130 and U+212A become
-- letters of ASCII; the others stay outside it, as they are here.
abbrev pub lower_code : ℕ → ℕ
lower_code c =
    if leb b'A' c && leb c b'Z'
    then c + 32
    else if c == 0x130
    then b'i'
    else if c == 0x212A
    then b'k'
    else c

-- Whether a text, in lower case, is this one of ASCII.
unfoldable pub lowers_to : String → String → Bool
lowers_to String.[] String.[] = true
lowers_to String.[] (String.◌∷◌ d t) = false
lowers_to (String.◌∷◌ c s) String.[] = false
lowers_to (String.◌∷◌ c s) (String.◌∷◌ d t) =
    let rest = lowers_to s t in lower_code (code c) == code d && rest

unfoldable pub is_level : String → Bool
unfolding lowers_to
is_level s =
    lowers_to s "debug" || (lowers_to s "info" || (lowers_to s "warn" || lowers_to s "error"))

unfoldable pub is_format : String → Bool
unfolding lowers_to
is_format s = lowers_to s "text" || lowers_to s "json"

-- `d <= 0`
abbrev pub is_not_positive : ℤ → Bool
is_not_positive d = ltb_ℤ d (pos 1)

abbrev pub is_blank : String → Bool
is_blank s = is_empty (trim_space s)

abbrev pub server_checks : ServerConfig → List (Bool × ValidationError)
server_checks s =
    (is_empty s.host, invalid "server.host")
    ∷ (ltb_ℤ s.port (pos 1) || ltb_ℤ (pos 65535) s.port, invalid "server.port")
    ∷ (is_not_positive s.max_header_bytes, invalid "server.max_header_bytes")
    ∷ (is_not_positive s.max_body_bytes, invalid "server.max_body_bytes")
    ∷ (
      is_not_positive s.read_header_timeout
          || (is_not_positive s.read_timeout
              || (is_not_positive s.write_timeout
                  || (is_not_positive s.idle_timeout || is_not_positive s.shutdown_timeout))),
      invalid "server timeouts",
    )
    ∷ []

abbrev pub php_checks : PhpConfig → List (Bool × ValidationError)
php_checks p =
    (is_blank p.binary, invalid "php.binary")
    ∷ (is_blank p.worker_script, invalid "php.worker_script")
    ∷ (is_blank p.working_directory, invalid "php.working_directory")
    ∷ []

abbrev pub logging_checks : LoggingConfig → List (Bool × ValidationError)
logging_checks l =
    (not (is_level l.level), invalid "logging.level")
    ∷ (not (is_format l.format), invalid "logging.format")
    ∷ []

abbrev pub endpoint_check : Option PathError → Result ValidationError (List String)
endpoint_check none = ok []
endpoint_check (some e) = fail (bad_path e)

abbrev pub path_result {ℓ} : {A : Type ℓ} → Result PathError A → Result ValidationError A
path_result (ok a) = ok a
path_result (fail e) = fail (bad_path e)

pub path_result-eq-ok {ℓ} :
    {A : Type ℓ} {r : Result PathError A} {a : A} → path_result r ≡ ok a → r ≡ ok a
path_result-eq-ok {r = ok a} h = cc
path_result-eq-ok {r = fail e} h = absurd (cc h)

abbrev pub workloads_result {ℓ} : {A : Type ℓ} → Result WorkloadsError A → Result ValidationError A
workloads_result (ok a) = ok a
workloads_result (fail e) = fail (bad_workloads e)

abbrev pub unless_failed : Option ValidationError → Result ValidationError (List String)
unless_failed none = ok []
unless_failed (some e) = fail e

abbrev pub passes : List (Bool × ValidationError) → Result ValidationError (List String)
passes cs = unless_failed (first_error cs)

module _ (std : Std) where
  abbrev pub worker_checks : WorkersConfig std.F → List (Bool × ValidationError)
  worker_checks w =
      (ltb_ℤ w.count (pos 1), invalid "workers.count")
      ∷ (ltb_ℤ w.min_ready (pos 0) || ltb_ℤ w.count w.min_ready, invalid "workers.min_ready")
      ∷ (ltb_ℤ w.max_requests (pos 0), invalid "workers.max_requests")
      ∷ (ltb_ℤ w.memory_limit_mb (pos 0), invalid "workers.memory_limit_mb")
      ∷ (
        is_not_positive w.startup_timeout
            || (is_not_positive w.handshake_timeout
                || (is_not_positive w.request_timeout
                    || (is_not_positive w.acquire_timeout || is_not_positive w.shutdown_timeout))),
        invalid "worker timeouts",
      )
      ∷ (ltb_ℤ w.restart_limit (pos 0), invalid "workers.restart_limit")
      ∷ (is_not_positive w.restart_window, invalid "workers.restart_window")
      ∷ (
        is_not_positive w.restart_backoff.initial || is_not_positive w.restart_backoff.maximum,
        invalid "workers.restart_backoff",
      )
      ∷ (
        std.below w.restart_backoff.multiplier (std.of_tenths 10),
        invalid "workers.restart_backoff.multiplier",
      )
      ∷ (
        std.below w.restart_backoff.jitter (std.of_tenths 0)
            || std.below (std.of_tenths 10) w.restart_backoff.jitter,
        invalid "workers.restart_backoff.jitter",
      )
      ∷ []

  abbrev pub other_checks : Config std.F → List (Bool × ValidationError)
  other_checks c =
      (is_blank c.socket.directory, invalid "socket.directory")
      ∷ (not (c.protocol.version == 1), invalid "protocol.version")
      ∷ (c.protocol.max_frame_bytes == 0, invalid "protocol.max_frame_bytes")
      ∷ (
        not (ltb_ℤ c.server.max_body_bytes (pos c.protocol.max_frame_bytes)),
        invalid "protocol.max_frame_bytes and body",
      )
      ∷ (ltb_ℤ c.queue.capacity (pos 0), invalid "queue.capacity")
      ∷ (ltb_ℤ c.queue.retry_after (pos 0), invalid "queue.retry_after")
      ∷ []

  abbrev pub prefix_checks : Config std.F → List (Bool × ValidationError)
  prefix_checks c =
      (is_empty c.prefix, invalid "operations.prefix")
      ∷ (not (starts_with c.prefix "/"), invalid "operations.prefix")
      ∷ []

  -- The configuration with its endpoints' paths rewritten; the value is nothing that a caller reads when
  -- it fails.
  unfoldable pub validate : Config std.F → Result ValidationError (Config std.F)
  unfolding is_level is_format resolve_endpoints collision resolve_workloads
  validate c = do
    _ ← passes ((not (is_empty c.version) && not (str_eq c.version "1"), invalid "version") ∷ [])
    _ ← passes (server_checks c.server)
    _ ← passes (php_checks c.php)
    _ ← passes (worker_checks c.workers)
    _ ← passes (other_checks c)
    _ ← passes (logging_checks c.logging)
    _ ← passes (prefix_checks c)
    resolved ← path_result (resolve_endpoints c)
    _ ← endpoint_check (collision [] (endpoints resolved))
    _ ← workloads_result (resolve_workloads std resolved)
    ok resolved
