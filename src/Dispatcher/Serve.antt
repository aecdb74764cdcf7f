-- ===== src/Dispatcher/Serve.antt =====
-- internal/dispatcher/dispatcher.go: `ServeHTTP`. What the client sends, which cases of the
-- `select` in `Acquire` become ready, how many nanoseconds that takes, and how the exchange with the worker ends are in the request.
-- The headers and bodies of messages pass through unchanged and are left out.
use Prim.Native.String
use text.Mathlib.Text.{◌==◌ as str_eq, starts_with}
use eregion.Prelude.{
  ℕ, ◌+◌, ◌%◌, ◌^◌, Bool, true, false, not, ◌&&◌, ◌||◌, Option, none, some, List, [], ◌∷◌, ◌++◌,
  if◌then◌else◌, String, ltb,
}
use eregion.Worker.Types.{Pool}
use eregion.Worker.Acquire.{try_acquire, Ready, Acquiring, again, acquired, gave_up, acquire}
use eregion.Worker.Release.{Meta, release, discard}
use eregion.Dispatcher.Queue.{Queue, try_enter_queue, leave_queue, retry_after_seconds}
use eregion.Dispatcher.Body.{Stream, read_body_limited}

-- How `Client.Send` ends.
pub data Sent : Type 0 where
  replied : ℕ → Meta → Sent
  timed_out broken_off : Sent

pub record Request : Type 0 where
  pub path : String
  pub body : Stream
  pub readies : List Ready
  pub queue_wait : ℕ
  pub sent : Sent

-- The calls made to the metrics hooks.
pub data Event : Type 0 where
  request_started in_flight_up in_flight_down rejected waited observed : Event
  failed_as : String → Event

pub record Dispatcher : Type 0 where
  pub prefix : String
  pub max_body_bytes : ℕ
  pub retry_after : ℕ
  pub queue : Queue
  pub req_seq : ℕ

pub record Reply : Type 0 where
  pub status : ℕ
  pub retry : Option ℕ

pub record Served : Type 0 where
  pub dispatcher : Dispatcher
  pub pool : Pool
  pub reply : Reply
  pub events : List Event

-- `prefix != "" && (path == prefix || strings.HasPrefix(path, prefix+"/"))`
unfoldable pub is_operations_path : String → String → Bool
is_operations_path prefix path =
    not (str_eq prefix "") && (str_eq path prefix || starts_with path (String.◌++◌ prefix "/"))

abbrev pub answer : ℕ → Reply
answer status = record { status = status; retry = none }

abbrev pub turned_away : Dispatcher → Reply
turned_away d = record { status = 503; retry = some (retry_after_seconds d.retry_after) }

-- The exchange with the worker at `a`, and what follows it.
unfoldable pub exchange : Dispatcher → Pool → ℕ → Sent → List Event → Served
exchange d p a sent before =
    let d' = record d { req_seq = (d.req_seq + 1) % 2 ^ 64 } in
    elim sent [
      | replied status meta ↦ record {
        dispatcher = d';
        pool = release p a (some meta);
        reply = answer status;
        events = before ++ (observed ∷ in_flight_down ∷ []);
      }
      | timed_out ↦ record {
        dispatcher = d';
        pool = discard p a;
        reply = answer 504;
        events = before ++ (failed_as "timeout" ∷ observed ∷ in_flight_down ∷ []);
      }
      | broken_off ↦ record {
        dispatcher = d';
        pool = discard p a;
        reply = answer 502;
        events = before ++ (failed_as "protocol" ∷ observed ∷ in_flight_down ∷ []);
      }
    ]

-- The wait is observed only where the clock has moved.
abbrev pub wait_events : ℕ → List Event
wait_events queue_wait = if ltb 0 queue_wait then waited ∷ [] else []

-- The answer to a request that gets no worker.
abbrev pub refusal : Dispatcher → Pool → List Event → Served
refusal d p events = record { dispatcher = d; pool = p; reply = turned_away d; events = events }

-- After `Acquire`: the queue is left whatever came of it. A request that `Acquire` still holds when
-- the given cases are used up times out at its deadline.
unfoldable pub after_wait : Dispatcher → Sent → ℕ → List Event → Pool × Acquiring → Served
unfolding exchange
after_wait d sent queue_wait before (p, acquired a) =
    exchange (record d { queue = leave_queue d.queue }) p a sent (before ++ wait_events queue_wait)
after_wait d sent queue_wait before (p, gave_up e) =
    refusal (record d { queue = leave_queue d.queue }) p
      (before ++ (wait_events queue_wait ++ (failed_as "acquire" ∷ in_flight_down ∷ [])))
after_wait d sent queue_wait before (p, again) =
    refusal (record d { queue = leave_queue d.queue }) p
      (before ++ (wait_events queue_wait ++ (failed_as "acquire" ∷ in_flight_down ∷ [])))

unfoldable pub wait_for_worker : Dispatcher → Pool → Request → List Event → Queue × Bool → Served
unfolding after_wait
wait_for_worker d p r before (q, false) =
    refusal d p (before ++ (rejected ∷ failed_as "capacity" ∷ in_flight_down ∷ []))
wait_for_worker d p r before (q, true) =
    after_wait (record d { queue = q }) r.sent r.queue_wait before (acquire p r.readies)

unfoldable pub with_worker : Dispatcher → Request → List Event → Pool × Option ℕ → Served
unfolding wait_for_worker
with_worker d r before (p, some a) = exchange d p a r.sent before
with_worker d r before (p, none) = wait_for_worker d p r before (try_enter_queue d.queue)

-- ServeHTTP with nobody in between.
unfoldable pub serve_http : Dispatcher → Pool → Request → Served
unfolding is_operations_path with_worker
serve_http d p r =
    let opened = request_started ∷ in_flight_up ∷ [] in
    if is_operations_path d.prefix r.path
    then record { dispatcher = d; pool = p; reply = answer 404; events = [] }
    else elim (read_body_limited d.max_body_bytes r.body) [
      | none ↦ record {
        dispatcher = d;
        pool = p;
        reply = answer 413;
        events = opened ++ (failed_as "body" ∷ in_flight_down ∷ []);
      }
      | some data' ↦ with_worker d r opened (try_acquire p)
    ]
