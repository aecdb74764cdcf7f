-- ===== src/Config/Paths.antt =====
-- internal/config/paths.go: the paths of the operations endpoints.
use Prim.Native.String
use text.Mathlib.Text.{◌==◌ as str_eq, starts_with}
use eregion.Prelude.{
  Bool, true, false, not, ◌||◌, Option, none, some, List, [], ◌∷◌, String, if◌then◌else◌,
}
use eregion.Prelude.Results.{Result, ok, fail, ◌>>=◌}
use eregion.Prelude.Texts.{is_empty, trim_space, trim_slash}
use eregion.Prelude.Paths.{clean}
use eregion.Config.Types.{Config, EndpointConfig}

pub data PathError : Type 0 where
  prefix_required prefix_not_rooted path_required : PathError
  duplicate : String → PathError

abbrev pub or_root : String → String
or_root s = if is_empty s then "/" else s

abbrev pub with_slash : String → String
with_slash p = if starts_with p "/" then p else String.◌++◌ "/" p

-- A rooted path stays rooted under `path.Clean`, so the code's last test never applies.
unfoldable pub join_operation_path : String → String → String
join_operation_path prefix path =
    if str_eq path prefix || starts_with path (String.◌++◌ prefix "/")
    then clean path
    else clean (String.◌++◌ prefix path)

unfoldable pub resolve_operation_path : String → String → Result PathError String
unfolding join_operation_path
resolve_operation_path prefix endpoint =
    let p = trim_space prefix in
    let e = trim_space endpoint in
    if is_empty p
    then fail prefix_required
    else if not (starts_with p "/")
    then fail prefix_not_rooted
    else if is_empty e
    then fail path_required
    else ok (join_operation_path (or_root (trim_slash p)) (with_slash e))

abbrev pub at_path : EndpointConfig → String → EndpointConfig
at_path e path = record e { path = path }

module _ {F : Type 0} where
  unfoldable pub resolve_endpoints : Config F → Result PathError (Config F)
  unfolding resolve_operation_path
  resolve_endpoints cfg = do
    metrics ← resolve_operation_path cfg.prefix cfg.metrics.path
    health ← resolve_operation_path cfg.prefix cfg.health.path
    readiness ← resolve_operation_path cfg.prefix cfg.readiness.path
    liveness ← resolve_operation_path cfg.prefix cfg.liveness.path
    ok (record cfg {
      metrics = at_path cfg.metrics metrics;
      health = at_path cfg.health health;
      readiness = at_path cfg.readiness readiness;
      liveness = at_path cfg.liveness liveness;
    })

  abbrev pub endpoints : Config F → List EndpointConfig
  endpoints cfg = cfg.metrics ∷ cfg.health ∷ cfg.readiness ∷ cfg.liveness ∷ []

-- The loop of `validateEndpointCollisions`; `seen` are the paths so far.
abbrev pub is_listed : List String → String → Bool
is_listed [] p = false
is_listed (s ∷ ss) p = let rest = is_listed ss p in if str_eq s p then true else rest

unfoldable pub collision : List String → List EndpointConfig → Option PathError
collision seen [] = none
collision seen (e ∷ es) =
    let others = collision seen es in
    let more = collision (e.path ∷ seen) es in
    if not e.enabled
    then others
    else if is_listed seen e.path
    then some (duplicate e.path)
    else more
