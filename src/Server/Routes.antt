-- ===== src/Server/Routes.antt =====
-- internal/server/server.go: the routes. Whether `http.ServeMux` takes a pattern after others, or panics, is an
-- argument.
use Prim.Native.Char.{code}
use text.Mathlib.Text.{◌==◌ as str_eq, starts_with}
use eregion.Prelude.{
  ℕ, ◌≡◌, ◌==◌, ◌&&◌, ◌||◌, not, All, Bool, true, false, Option, none, some, List, [], ◌∷◌, ◌++◌,
  String, if◌then◌else◌,
}
use eregion.Config.Types.{Config, EndpointConfig}

pub data Handler : Type 0 where
  live ready health ready_multi health_multi metrics dispatcher no_http : Handler

abbrev pub only_enabled : List (EndpointConfig × Handler) → List (String × Handler)
only_enabled [] = []
only_enabled ((e, h) ∷ es) =
    let rest = only_enabled es in if e.enabled then (e.path, h) ∷ rest else rest

module _ {F : Type 0} where
  abbrev pub endpoint_handlers : Config F → Bool → List (EndpointConfig × Handler)
  endpoint_handlers cfg has_http =
      (cfg.liveness, live)
      ∷ (cfg.readiness, if has_http then ready else ready_multi)
      ∷ (cfg.health, if has_http then health else health_multi)
      ∷ (cfg.metrics, metrics)
      ∷ []

  -- The calls of `Handle` and `HandleFunc`, in their order.
  unfoldable pub routes : Config F → Bool → List (String × Handler)
  routes cfg has_http =
      only_enabled (endpoint_handlers cfg has_http)
      ++ (("/", if has_http then dispatcher else no_http) ∷ [])

abbrev pub is_registered : List (String × Handler) → String → Bool
is_registered [] path = false
is_registered ((p, h) ∷ mux) path =
    let rest = is_registered mux path in if str_eq p path then true else rest

-- Of the patterns so far and a new one: false is a panic.
abbrev pub Accepts : Type 0
Accepts = List (String × Handler) → String → Bool

-- `none` is a panic.
unfoldable pub register_all :
    Accepts → List (String × Handler) → List (String × Handler) → Option (List (String × Handler))
register_all accepts mux [] = some mux
register_all accepts mux ((p, h) ∷ rs) =
    let rest = register_all accepts ((p, h) ∷ mux) rs in if accepts mux p then rest else none

-- A character that means something in a pattern: a space or a tab after a method, the brace of a wildcard, the
-- start of an escape.
abbrev pub is_special : ℕ → Bool
is_special c = (c == 32) || ((c == 9) || ((c == 123) || (c == 37)))

abbrev pub has_special : String → Bool
has_special String.[] = false
has_special (String.◌∷◌ c s) = is_special (code c) || has_special s

-- A path that is a pattern for itself only: no method, host, wildcard or escape is in it.
abbrev pub is_plain : String → Bool
is_plain path = starts_with path "/" && not (has_special path)

-- Of `http.ServeMux`: among plain paths a pattern panics just where it has been registered.
abbrev pub AreKnown : List (String × Handler) → Type 0
AreKnown mux = All (λ r. is_plain r.0 ≡ true) mux

abbrev pub fresh : Accepts
fresh mux path = not (is_registered mux path)

pub record IsServeMux (accepts : Accepts) : Type 0 where
  pub plain :
      (mux : List (String × Handler)) (path : String)
      → AreKnown mux
      → is_plain path ≡ true
      → accepts mux path ≡ fresh mux path
