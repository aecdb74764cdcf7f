-- ===== src/Telemetry/Examples.antt =====
-- The counters and the endpoints after concrete requests.
use eregion.Prelude.{◌≡◌, ◌≢◌, ◌↔◌, refl, false, [], ◌∷◌}
use eregion.Prelude.Maps.{lookup, insert}
use eregion.Worker.Types.{Pool, http}
use eregion.Worker.Acquire.{try_acquire}
use eregion.Dispatcher.Body.{bytes, read_body_limited}
use eregion.Dispatcher.Queue.{try_enter_queue}
use eregion.Dispatcher.Serve.{Dispatcher, Request, timed_out}
use eregion.Telemetry.Registry.{new_registry, count_of}
use eregion.Telemetry.Accounts.{Visits, AddsUp, count_visits, count_visits-AddsUp}
use eregion.Telemetry.Health.{ready_handler}
use eregion.Telemetry.Ready.{IsReady, ready_handler-health_handler}

-- No slot has a worker.
abbrev no_workers : Pool
no_workers = record {
  mode = http;
  cfg = record {
    max_requests = 0;
    memory_limit_mb = 0;
    restart_limit = 0;
    restart_window = 0;
    queue_capacity = 0;
  };
  slots = [];
  heap = [];
  channel = [];
  channel_cap = 1;
  desired = 0;
  min_ready = 1;
  min_w = 1;
  max_w = 1;
  stopping = false;
  recycled = [];
  restarted = 0;
  scaled = [];
}

abbrev dispatcher : Dispatcher
dispatcher = record {
  prefix = "/_eregion";
  max_body_bytes = 2;
  retry_after = 1;
  queue = record { capacity = 0; waiting = 0 };
  req_seq = 0;
}

abbrev hello : Request
hello = record {
  path = "/hello";
  body = bytes (1 ∷ []);
  readies = [];
  queue_wait = 0;
  sent = timed_out;
}

abbrev visits : Visits
visits =
    (dispatcher, no_workers, hello, λ _. 5)
    ∷ (dispatcher, no_workers, record hello { body = bytes (1 ∷ 2 ∷ 3 ∷ []) }, λ _. 5)
    ∷ (dispatcher, no_workers, record hello { path = "/_eregion/none" }, λ _. 5)
    ∷ []

-- The queue is full, the body is too large, and the path is the operations'.
counted :
    let r = count_visits new_registry visits in
    r.requests_total ∷ count_of r.errors_total "capacity" ∷ count_of r.errors_total "body" ∷ []
    ≡ 2 ∷ 1 ∷ 1 ∷ []
unfolding count_visits try_acquire try_enter_queue read_body_limited lookup insert
counted = refl

count_visits-AddsUp_example : AddsUp (count_visits new_registry visits)
count_visits-AddsUp_example = count_visits-AddsUp visits

ready_handler-health_handler_example :
    ((ready_handler no_workers 0 1 false ≡ 200) ↔ IsReady no_workers 0 1 false)
    × (ready_handler no_workers 0 1 false ≢ 200 → ready_handler no_workers 0 1 false ≡ 503)
ready_handler-health_handler_example = ready_handler-health_handler no_workers 0 1 false
