-- ===== src/Server/Examples.antt =====
-- The routes of the defaults and of a validated clash, and the courses of a run.
use eregion.Prelude.{ℕ, ◌≡◌, ◌↔◌, refl, true, false, none, some, List, [], ◌∷◌, String, All, ltb}
use eregion.Prelude.Int.{negsuc}
use eregion.Prelude.Results.{ok, ◌>>=◌}
use eregion.Prelude.Texts.{trim_space, trim_slash}
use eregion.Prelude.Paths.{clean}
use eregion.Config.Types.{Std, Config}
use eregion.Config.Paths.{endpoints, resolve_operation_path}
use eregion.Config.Load.{default}
use eregion.Config.Validated.{IsValid, validate-IsValid}
use eregion.Config.Defaulted.{default-IsAccepted}
use eregion.Server.Routes.{Handler, routes, register_all, fresh}
use eregion.Server.Run.{
  Course, cancelled, server_failed, start_pools, start_reconciler, listen, serve, stop_reconciler,
  mark_shutting_down, stop_http, shut_pools, clean_sockets, start_failed, serve_failed,
  pools_failed, run,
}
use eregion.Server.Mux.{IsBelowRoot, IsPlain, routes-IsBelowRoot}

abbrev toy : Std
toy = record { F = ℕ; of_tenths = λ n. n; below = ltb; parse_duration = λ _. none }

abbrev usual : Config ℕ
usual = default toy (negsuc 0)

usual-IsValid : IsValid toy usual
usual-IsValid =
    (validate-IsValid toy usual).holds usual
      (default-IsAccepted toy (record { below_tenths = λ a b _ _. refl }) (negsuc 0))

usual-IsPlain : All IsPlain (endpoints usual)
unfolding default ◌>>=◌ trim_space trim_slash clean
usual-IsPlain = (λ _. refl, (λ _. refl, (λ _. refl, (λ _. refl, tt))))

routes-IsBelowRoot_example :
    ((m : List (String × Handler)) × (register_all fresh [] (routes usual true) ≡ some m))
    ↔ All IsBelowRoot (endpoints usual)
routes-IsBelowRoot_example =
    routes-IsBelowRoot toy fresh usual true (record { plain = λ mux path k p. refl }) usual-IsValid
      usual-IsPlain

-- An endpoint may come to the root.
root_path : resolve_operation_path "/" "/" ≡ ok "/"
unfolding resolve_operation_path trim_space trim_slash clean
root_path = refl

root_clash :
    register_all fresh []
      (routes (record usual { metrics = record { enabled = true; path = "/" } }) true)
    ≡ none
unfolding routes register_all default ◌>>=◌ trim_space trim_slash clean
root_clash = refl

abbrev course : Course
course = record {
  starts = true;
  listens = true;
  signal = cancelled;
  http_stops = true;
  pools_stop = false;
}

stopped : run course ≡ (
  start_pools ∷ start_reconciler ∷ listen ∷ serve ∷ stop_reconciler ∷ mark_shutting_down ∷ stop_http
      ∷ shut_pools ∷ clean_sockets ∷ [],
  pools_failed,
)
unfolding run
stopped = refl

-- Pools that have started stay when another fails to.
left_running : run (record course { starts = false }) ≡ (start_pools ∷ [], start_failed)
unfolding run
left_running = refl

crashed : run (record course { signal = server_failed }) ≡ (
  start_pools ∷ start_reconciler ∷ listen ∷ serve ∷ stop_reconciler ∷ shut_pools ∷ [],
  serve_failed,
)
unfolding run
crashed = refl
