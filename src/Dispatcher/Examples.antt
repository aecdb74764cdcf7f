-- ===== src/Dispatcher/Examples.antt =====
-- The dispatcher's theorems at concrete inputs, and runs of it.
use eregion.Prelude.{ℕ, ◌≤◌, ◌≡◌, refl, false, none, some, List, [], ◌∷◌, length, ltb}
use eregion.Worker.Types.{idle, http, Pool}
use eregion.Worker.Scale.{new_slot}
use eregion.Worker.Acquire.{acquire, try_acquire, received, deadline_passed}
use eregion.Dispatcher.Queue.{
  Waiters, Visits, here, next, enter, try_enter_queue, retry_after_seconds, queue_exact,
}
use eregion.Dispatcher.Body.{bytes, read_body_limited}
use eregion.Dispatcher.Serve.{
  Dispatcher, Request, replied, timed_out, is_operations_path, serve_http,
}

-- A prefix that ends in a slash does not cover the paths below it.
below_slash : is_operations_path "/ops/" "/ops/health" ≡ false
unfolding is_operations_path
below_slash = refl

half_seconds : retry_after_seconds 1_500_000_000 ≡ 2
unfolding retry_after_seconds
half_seconds = refl

abbrev three : List ℕ
three = 10 ∷ 20 ∷ 30 ∷ []

-- Three bytes are within a limit of three, and too many for one of two.
all_read : read_body_limited 3 (bytes three) ≡ some three
unfolding read_body_limited
all_read = refl

too_long : read_body_limited 2 (bytes three) ≡ none
unfolding read_body_limited
too_long = refl

-- One place; the second request finds it taken.
abbrev start : Waiters
start = record { queue = record { capacity = 1; waiting = 0 }; members = [] }

abbrev one_in : Waiters
one_in = record { queue = record { capacity = 1; waiting = 1 }; members = 7 ∷ [] }

come : Visits start one_in
unfolding try_enter_queue
come = next (next here (enter 7)) (enter 8)

queue_exact_example :
    (one_in.queue.waiting ≡ length one_in.members)
    × (length one_in.members ≤ start.queue.capacity)
    × ((try_enter_queue one_in.queue).1 ≡ ltb (length one_in.members) start.queue.capacity)
queue_exact_example = queue_exact refl refl come

-- One idle worker at address 0.
abbrev pool : Pool
pool = record {
  mode = http;
  cfg = record {
    max_requests = 100;
    memory_limit_mb = 0;
    restart_limit = 2;
    restart_window = 100;
    queue_capacity = 1;
  };
  slots = record (new_slot 1) { generation = 1; worker = some 0 } ∷ [];
  heap =
      record {
        slot = 1;
        generation = 1;
        state = idle;
        requests_handled = 0;
        restart_count = 0;
        closed = false;
        signalled = false;
      }
      ∷ [];
  channel = 0 ∷ [];
  channel_cap = 4;
  desired = 1;
  min_ready = 1;
  min_w = 1;
  max_w = 1;
  stopping = false;
  recycled = [];
  restarted = 0;
  scaled = [];
}

abbrev dispatcher : Dispatcher
dispatcher = record {
  prefix = "/_eregion";
  max_body_bytes = 3;
  retry_after = 1_500_000_000;
  queue = record { capacity = 1; waiting = 0 };
  req_seq = 0;
}

abbrev request : Request
request = record {
  path = "/home";
  body = bytes three;
  readies = received ∷ deadline_passed ∷ [];
  queue_wait = 40_000;
  sent = replied 200 (record { memory_usage = 0; recycle = false; recycle_reason = "" });
}

answered : (serve_http dispatcher pool request).reply.status ≡ 200
unfolding serve_http read_body_limited try_acquire
answered = refl

-- No worker is free: the request waits in the queue until its deadline.
gave_up : (serve_http dispatcher (record pool { channel = [] }) request).reply.retry ≡ some 2
unfolding serve_http read_body_limited try_acquire try_enter_queue acquire retry_after_seconds
gave_up = refl

late : (serve_http dispatcher pool (record request { sent = timed_out })).reply.status ≡ 504
unfolding serve_http read_body_limited try_acquire
late = refl

reserved : (serve_http dispatcher pool (record request { path = "/_eregion/x" })).reply.status ≡ 404
unfolding serve_http
reserved = refl
