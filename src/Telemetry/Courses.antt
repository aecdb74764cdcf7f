-- ===== src/Telemetry/Courses.antt =====
-- The calls that one request makes to the registry.
use eregion.Prelude.{
  ℕ, Bool, true, false, Option, none, some, List, [], ◌∷◌, ◌++◌, String, inl, inr, Bool-cases,
  Option-cases, ltb,
}
use eregion.Worker.Types.{Pool}
use eregion.Worker.Acquire.{try_acquire, Acquiring, again, acquired, gave_up, acquire}
use eregion.Dispatcher.Queue.{Queue, try_enter_queue}
use eregion.Dispatcher.Body.{read_body_limited}
use eregion.Dispatcher.Serve.{
  Sent, replied, timed_out, broken_off, Request, Event, request_started, in_flight_up,
  in_flight_down, rejected, waited, observed, failed_as, Dispatcher, is_operations_path, exchange,
  after_wait, wait_for_worker, with_worker, serve_http,
}

abbrev pub opened : Bool → List Event
opened false = request_started ∷ in_flight_up ∷ []
opened true = request_started ∷ in_flight_up ∷ waited ∷ []

abbrev pub kind_of : Bool → String
kind_of false = "timeout"
kind_of true = "protocol"

pub data Course : List Event → Type 0 where
  ignored : Course []
  too_large : Course (request_started ∷ in_flight_up ∷ failed_as "body" ∷ in_flight_down ∷ [])
  queue_full :
      Course
        (request_started ∷ in_flight_up ∷ rejected ∷ failed_as "capacity" ∷ in_flight_down ∷ [])
  no_worker : (late : Bool) → Course (opened late ++ (failed_as "acquire" ∷ in_flight_down ∷ []))
  answered : (late : Bool) → Course (opened late ++ (observed ∷ in_flight_down ∷ []))
  broken :
      (late kind : Bool)
      → Course (opened late ++ (failed_as (kind_of kind) ∷ observed ∷ in_flight_down ∷ []))

exchange-Course :
    (d : Dispatcher) (p : Pool) (a : ℕ) (sent : Sent) (late : Bool)
    → Course (exchange d p a sent (opened late)).events
unfolding exchange
exchange-Course d p a (replied status m) late = answered late
exchange-Course d p a timed_out late = broken late false
exchange-Course d p a broken_off late = broken late true

after_wait-Course :
    (d : Dispatcher) (sent : Sent) (n : ℕ) (r : Pool × Acquiring)
    → Course (after_wait d sent n (opened false) r).events
unfolding after_wait
after_wait-Course d sent n (p, acquired a) = elim (Bool-cases (ltb 0 n)) [
  | inl e ↦ rw e (exchange-Course _ p a sent true)
  | inr e ↦ rw e (exchange-Course _ p a sent false)
]
after_wait-Course d sent n (p, gave_up x) = elim (Bool-cases (ltb 0 n)) [
  | inl e ↦ rw e (no_worker true)
  | inr e ↦ rw e (no_worker false)
]
after_wait-Course d sent n (p, again) = elim (Bool-cases (ltb 0 n)) [
  | inl e ↦ rw e (no_worker true)
  | inr e ↦ rw e (no_worker false)
]

wait_for_worker-Course :
    (d : Dispatcher) (p : Pool) (r : Request) (e : Queue × Bool)
    → Course (wait_for_worker d p r (opened false) e).events
unfolding wait_for_worker
wait_for_worker-Course d p r (q, false) = queue_full
wait_for_worker-Course d p r (q, true) =
    after_wait-Course (record d { queue = q }) r.sent r.queue_wait (acquire p r.readies)

with_worker-Course :
    (d : Dispatcher) (r : Request) (t : Pool × Option ℕ)
    → Course (with_worker d r (opened false) t).events
unfolding with_worker
with_worker-Course d r (p, some a) = exchange-Course d p a r.sent false
with_worker-Course d r (p, none) = wait_for_worker-Course d p r (try_enter_queue d.queue)

pub serve_http-Course : (d : Dispatcher) (p : Pool) (r : Request) → Course (serve_http d p r).events
unfolding serve_http
serve_http-Course d p r = elim (Bool-cases (is_operations_path d.prefix r.path)) [
  | inl e ↦ rw e ignored
  | inr e ↦ elim (Option-cases (read_body_limited d.max_body_bytes r.body)) [
    | inl f ↦ rw (e, f) too_large
    | inr (body, f) ↦ rw (e, f) (with_worker-Course d r (try_acquire p))
  ]
]
