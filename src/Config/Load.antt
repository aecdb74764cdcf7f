-- ===== src/Config/Load.antt =====
-- internal/config: `Default`, `Load` and `ApplyCLIOverrides`, and how cmd/eregion/main.go composes them.
use eregion.Prelude.{◌≡◌, refl, String, if◌then◌else◌}
use eregion.Prelude.Int.{ℤ, pos, ltb_ℤ}
use eregion.Prelude.Results.{Ensures, Ensures-ok, Ensures-fail, Result, ok, fail, ◌>>=◌}
use eregion.Prelude.Texts.{is_empty}
use eregion.Config.Types.{Std, Config, QueueConfig}
use eregion.Config.Defaults.{bare_default, derived_queue_capacity}
use eregion.Config.File.{FileConfig}
use eregion.Config.Paths.{PathError, resolve_endpoints}
use eregion.Config.Apply.{FileError, apply_file}
use eregion.Config.Validation.{ValidationError, validate}

-- What the operating system and the YAML library find under the path of the configuration.
pub data Source (F : Type 0) : Type 0 where
  absent unreadable unparsed undecoded : Source F
  decoded : FileConfig F → Source F

pub data LoadError : Type 0 where
  not_read not_parsed not_decoded : LoadError
  bad_file : FileError → LoadError
  not_valid : ValidationError → LoadError

-- The flags of `serve`: empty or 0 where they are not given.
pub record Flags : Type 0 where
  pub host : String
  pub port : ℤ
  pub workers : ℤ

-- `_ = cfg.ResolveEndpoints()`
abbrev pub or_bare : {F : Type 0} → Config F → Result PathError (Config F) → Config F
or_bare c (ok resolved) = resolved
or_bare c (fail _) = c

abbrev pub file_result {ℓ} : {A : Type ℓ} → Result FileError A → Result LoadError A
file_result (ok a) = ok a
file_result (fail e) = fail (bad_file e)

abbrev pub valid_result {ℓ} : {A : Type ℓ} → Result ValidationError A → Result LoadError A
valid_result (ok a) = ok a
valid_result (fail e) = fail (not_valid e)

pub file_result-eq-ok {ℓ} :
    {A : Type ℓ} {r : Result FileError A} {a : A} → file_result r ≡ ok a → r ≡ ok a
file_result-eq-ok {r = ok a} h = cc
file_result-eq-ok {r = fail e} h = absurd (cc h)

pub valid_result-Ensures {ℓ κ} :
    {A : Type ℓ} {P : A → Type κ} {r : Result ValidationError A}
    → Ensures P r
    → Ensures P (valid_result r)
valid_result-Ensures {r = ok a} h = Ensures-ok (h.holds a refl)
valid_result-Ensures {r = fail e} h = Ensures-fail

unfoldable pub override_queue : {F : Type 0} → Config F → ℤ → QueueConfig
override_queue c workers =
    if c.queue_capacity_derived
    then record { capacity = derived_queue_capacity workers; retry_after = c.queue.retry_after }
    else c.queue

unfoldable pub apply_cli_overrides : {F : Type 0} → Config F → Flags → Config F
unfolding override_queue
apply_cli_overrides c flags =
    let given = ltb_ℤ (pos 0) flags.workers in
    record c {
      server = record c.server {
        host = if is_empty flags.host then c.server.host else flags.host;
        port = if ltb_ℤ (pos 0) flags.port then flags.port else c.server.port;
      };
      queue = if given then override_queue c flags.workers else c.queue;
      workers = record c.workers { count = if given then flags.workers else c.workers.count };
    }

module _ (std : Std) where
  unfoldable pub default : ℤ → Config std.F
  unfolding resolve_endpoints
  default cpus = or_bare (bare_default std cpus) (resolve_endpoints (bare_default std cpus))

  -- `Load`; and `loadConfig`, for which no file and no path mean the defaults.
  unfoldable pub load : ℤ → Source std.F → Result LoadError (Config std.F)
  unfolding default apply_file validate
  load cpus absent = valid_result (validate std (default cpus))
  load cpus unreadable = fail not_read
  load cpus unparsed = fail not_parsed
  load cpus undecoded = fail not_decoded
  load cpus (decoded file) = do
    cfg ← file_result (apply_file std (default cpus) file)
    valid_result (validate std cfg)

  -- What `serve` runs on.
  unfoldable pub serve_config : ℤ → Source std.F → Flags → Result LoadError (Config std.F)
  unfolding load apply_cli_overrides validate
  serve_config cpus source flags = do
    cfg ← load cpus source
    valid_result (validate std (apply_cli_overrides cfg flags))
