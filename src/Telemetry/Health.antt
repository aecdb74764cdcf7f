-- ===== src/Telemetry/Health.antt =====
-- internal/telemetry/metrics.go: the health, readiness and liveness endpoints. What they write beside the
-- status, the counts of the snapshot, is left out. `MinReady` is validated to be 0 or more.
use eregion.Prelude.{ℕ, ◌+◌, Bool, ◌||◌, List, [], ◌∷◌, ltb, leb, if◌then◌else◌}
use eregion.Worker.Types.{Pool}
use eregion.Worker.Snapshot.{PoolSnapshot, snapshot, healthy_count}

pub data Status : Type 0 where
  healthy degraded unhealthy : Status

unfoldable pub status_of : PoolSnapshot → ℕ → Status
status_of snap min_ready =
    let well = snap.idling + snap.working + snap.leaving in
    if ltb well min_ready
    then unhealthy
    else if ltb 0 snap.failing || ltb well snap.desired
    then degraded
    else healthy

-- `HealthHandler`; `waiting` is what the queue provider answers.
unfoldable pub health_handler : Pool → ℕ → ℕ → Status
unfolding status_of
health_handler pool waiting min_ready = status_of (snapshot pool waiting) min_ready

-- `HealthHandlerMulti`
unfoldable pub health_handler_multi : List (Pool × ℕ) → Status
health_handler_multi [] = healthy
health_handler_multi ((pool, waiting) ∷ pools) =
    let rest = health_handler_multi pools in
    if ltb 0 (snapshot pool waiting).failing then degraded else rest

abbrev pub ready_code : Bool → Bool → Bool → ℕ
ready_code is_shutting_down is_stopping is_well =
    if is_shutting_down then 503 else if is_stopping then 503 else if is_well then 200 else 503

-- `ReadyHandler`: the code of the answer.
unfoldable pub ready_handler : Pool → ℕ → ℕ → Bool → ℕ
ready_handler pool waiting min_ready is_shutting_down =
    ready_code is_shutting_down pool.stopping
      (leb min_ready (healthy_count (snapshot pool waiting)))

-- `ReadyHandlerMulti`
unfoldable pub ready_handler_multi : List Pool → Bool → ℕ
ready_handler_multi [] is_shutting_down = if is_shutting_down then 503 else 200
ready_handler_multi (pool ∷ pools) is_shutting_down =
    let rest = ready_handler_multi pools is_shutting_down in
    if is_shutting_down then 503 else if pool.stopping then 503 else rest

-- `LiveHandler`
abbrev pub live_handler : ℕ
live_handler = 200
