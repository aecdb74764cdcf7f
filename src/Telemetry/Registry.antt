-- ===== src/Telemetry/Registry.antt =====
-- internal/telemetry/metrics.go: `Registry` and its counters. They are uint64 and wrap around; the gauge of
-- requests in flight is an int64. Durations are whole milliseconds, as `uint64(sec * 1000)` makes them.
use Prim.Native.String
use eregion.Prelude.{ℕ, zero, suc, ◌+◌, ◌%◌, ◌^◌, Option, none, some, List, [], ◌∷◌, String}
use eregion.Prelude.Int.{ℤ, pos, negsuc}
use eregion.Prelude.Maps.{lookup, insert}
use eregion.Dispatcher.Serve.{
  Event, request_started, in_flight_up, in_flight_down, rejected, waited, observed, failed_as,
}

pub record Registry : Type 0 where
  pub requests_total : ℕ
  pub in_flight : ℤ
  pub errors_total : List (String × ℕ)
  pub queue_rejects : ℕ
  pub duration_count : ℕ
  pub duration_sum : ℕ
  pub queue_wait_count : ℕ
  pub queue_wait_sum : ℕ
  pub recycle_total : List (String × ℕ)
  pub restart_total : ℕ
  pub restart_by_workload : List (String × ℕ)
  pub scale_by_workload : List (String × ℕ)

abbrev pub new_registry : Registry
new_registry = record {
  requests_total = 0;
  in_flight = pos 0;
  errors_total = [];
  queue_rejects = 0;
  duration_count = 0;
  duration_sum = 0;
  queue_wait_count = 0;
  queue_wait_sum = 0;
  recycle_total = [];
  restart_total = 0;
  restart_by_workload = [];
  scale_by_workload = [];
}

-- `atomic.Uint64.Add`
abbrev pub add : ℕ → ℕ → ℕ
add n k = (n + k) % 2 ^ 64

abbrev pub or_zero : Option ℕ → ℕ
or_zero none = 0
or_zero (some n) = n

abbrev pub count_of : List (String × ℕ) → String → ℕ
count_of m k = or_zero (lookup m k)

-- `LoadOrStore`, then `Add(1)`
unfoldable pub bump : List (String × ℕ) → String → List (String × ℕ)
bump m k = insert m k (add (count_of m k) 1)

abbrev pub up : ℤ → ℤ
up (pos n) = pos (n + 1)
up (negsuc zero) = pos 0
up (negsuc (suc n)) = negsuc n

abbrev pub down : ℤ → ℤ
down (pos zero) = negsuc 0
down (pos (suc n)) = pos n
down (negsuc n) = negsuc (suc n)

abbrev pub inc_requests : Registry → Registry
inc_requests r = record r { requests_total = add r.requests_total 1 }

abbrev pub inc_in_flight : Registry → Registry
inc_in_flight r = record r { in_flight = up r.in_flight }

abbrev pub dec_in_flight : Registry → Registry
dec_in_flight r = record r { in_flight = down r.in_flight }

abbrev pub inc_queue_reject : Registry → Registry
inc_queue_reject r = record r { queue_rejects = add r.queue_rejects 1 }

abbrev pub observe_duration : Registry → ℕ → Registry
observe_duration r ms = record r {
  duration_count = add r.duration_count 1;
  duration_sum = add r.duration_sum ms;
}

abbrev pub observe_queue_wait : Registry → ℕ → Registry
observe_queue_wait r ms = record r {
  queue_wait_count = add r.queue_wait_count 1;
  queue_wait_sum = add r.queue_wait_sum ms;
}

abbrev pub inc_error : Registry → String → Registry
inc_error r kind = record r { errors_total = bump r.errors_total kind }

abbrev pub inc_recycle : Registry → String → Registry
inc_recycle r reason = record r { recycle_total = bump r.recycle_total reason }

-- `workloadMetrics.IncRestart`
abbrev pub inc_restart : Registry → String → Registry
inc_restart r workload = record r {
  restart_total = add r.restart_total 1;
  restart_by_workload = bump r.restart_by_workload workload;
}

abbrev pub inc_scale : Registry → String → String → Registry
inc_scale r workload direction = record r {
  scale_by_workload = bump r.scale_by_workload (String.◌++◌ workload (String.◌++◌ "|" direction));
}

-- The dispatcher's calls of the registry; `ms` is what the clock measures.
unfoldable pub count_event : Registry → Event → ℕ → Registry
unfolding bump
count_event r request_started ms = inc_requests r
count_event r in_flight_up ms = inc_in_flight r
count_event r in_flight_down ms = dec_in_flight r
count_event r rejected ms = inc_queue_reject r
count_event r waited ms = observe_queue_wait r ms
count_event r observed ms = observe_duration r ms
count_event r (failed_as kind) ms = inc_error r kind

unfoldable pub count_events : Registry → (Event → ℕ) → List Event → Registry
unfolding count_event
count_events r ms [] = r
count_events r ms (e ∷ es) = count_events (count_event r e (ms e)) ms es
