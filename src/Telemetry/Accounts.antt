-- ===== src/Telemetry/Accounts.antt =====
-- The counters of the requests add up.
use text.Mathlib.Text.{◌==◌ as str_eq}
use eregion.Prelude.{
  ℕ, ◌+◌, ◌%◌, ◌^◌, ◌≡◌, refl, ap, Bool, true, false, List, [], ◌∷◌, String, arith,
}
use eregion.Prelude.Int.{pos}
use eregion.Prelude.Maps.{lookup, str_eq→ne}
use eregion.Worker.Types.{Pool}
use eregion.Dispatcher.Serve.{Event, Dispatcher, Request, serve_http}
use eregion.Telemetry.Registry.{Registry, new_registry, add, count_of, bump, count_events}
use eregion.Telemetry.Counting.{count_of-bump_self, count_of-bump_ne}
use eregion.Telemetry.Courses.{
  Course, ignored, too_large, queue_full, no_worker, answered, broken, kind_of, serve_http-Course,
}

-- Nothing is in flight, each request has ended in one of four ways, and the rejections are the errors of
-- the capacity; all as far as 64 bits count.
pub record AddsUp (r : Registry) : Type 0 where
  pub idle : r.in_flight ≡ pos 0
  pub ended : r.requests_total ≡ (
      (r.duration_count
        + count_of r.errors_total "body"
        + count_of r.errors_total "capacity"
        + count_of r.errors_total "acquire")
      % 2 ^ 64)
  pub rejects : r.queue_rejects ≡ count_of r.errors_total "capacity"

-- The counters of the three kinds that end a request without a worker.
abbrev Kept : List (String × ℕ) → List (String × ℕ) → Type 0
Kept m n =
    (count_of n "body" ≡ count_of m "body")
    × (count_of n "capacity" ≡ count_of m "capacity")
    × (count_of n "acquire" ≡ count_of m "acquire")

other :
    (m : List (String × ℕ)) (k j : String)
    → str_eq k j ≡ false
    → count_of (bump m k) j ≡ count_of m j
other m k j e = count_of-bump_ne m k j (str_eq→ne e)

bump_body :
    (m : List (String × ℕ))
    → (count_of (bump m "body") "body" ≡ add (count_of m "body") 1)
      × (count_of (bump m "body") "capacity" ≡ count_of m "capacity")
      × (count_of (bump m "body") "acquire" ≡ count_of m "acquire")
bump_body m =
    (count_of-bump_self m "body", other m "body" "capacity" refl, other m "body" "acquire" refl)

bump_capacity :
    (m : List (String × ℕ))
    → (count_of (bump m "capacity") "body" ≡ count_of m "body")
      × (count_of (bump m "capacity") "capacity" ≡ add (count_of m "capacity") 1)
      × (count_of (bump m "capacity") "acquire" ≡ count_of m "acquire")
bump_capacity m = (
  other m "capacity" "body" refl,
  count_of-bump_self m "capacity",
  other m "capacity" "acquire" refl,
)

bump_acquire :
    (m : List (String × ℕ))
    → (count_of (bump m "acquire") "body" ≡ count_of m "body")
      × (count_of (bump m "acquire") "capacity" ≡ count_of m "capacity")
      × (count_of (bump m "acquire") "acquire" ≡ add (count_of m "acquire") 1)
bump_acquire m = (
  other m "acquire" "body" refl,
  other m "acquire" "capacity" refl,
  count_of-bump_self m "acquire",
)

bump_kind : (m : List (String × ℕ)) (kind : Bool) → Kept m (bump m (kind_of kind))
bump_kind m false = (
  other m "timeout" "body" refl,
  other m "timeout" "capacity" refl,
  other m "timeout" "acquire" refl,
)
bump_kind m true = (
  other m "protocol" "body" refl,
  other m "protocol" "capacity" refl,
  other m "protocol" "acquire" refl,
)

Course-AddsUp :
    (r : Registry) (ms : Event → ℕ) (es : List Event)
    → Course es
    → AddsUp r
    → AddsUp (count_events r ms es)
unfolding count_events
Course-AddsUp r ms es ignored h = h
Course-AddsUp r ms es too_large h =
    let (b, c, a) = bump_body r.errors_total in
    record {
      idle = rw h.idle refl;
      ended = rw (b, c, a) (omega (arith, h.ended));
      rejects = rw c h.rejects;
    }
Course-AddsUp r ms es queue_full h =
    let (b, c, a) = bump_capacity r.errors_total in
    record {
      idle = rw h.idle refl;
      ended = rw (b, c, a) (omega (arith, h.ended));
      rejects = rw c (ap (λ x. add x 1) h.rejects);
    }
Course-AddsUp r ms es (no_worker false) h =
    let (b, c, a) = bump_acquire r.errors_total in
    record {
      idle = rw h.idle refl;
      ended = rw (b, c, a) (omega (arith, h.ended));
      rejects = rw c h.rejects;
    }
Course-AddsUp r ms es (no_worker true) h =
    let (b, c, a) = bump_acquire r.errors_total in
    record {
      idle = rw h.idle refl;
      ended = rw (b, c, a) (omega (arith, h.ended));
      rejects = rw c h.rejects;
    }
Course-AddsUp r ms es (answered false) h = record {
  idle = rw h.idle refl;
  ended = omega (arith, h.ended);
  rejects = h.rejects;
}
Course-AddsUp r ms es (answered true) h = record {
  idle = rw h.idle refl;
  ended = omega (arith, h.ended);
  rejects = h.rejects;
}
Course-AddsUp r ms es (broken false kind) h =
    let (b, c, a) = bump_kind r.errors_total kind in
    record {
      idle = rw h.idle refl;
      ended = rw (b, c, a) (omega (arith, h.ended));
      rejects = rw c h.rejects;
    }
Course-AddsUp r ms es (broken true kind) h =
    let (b, c, a) = bump_kind r.errors_total kind in
    record {
      idle = rw h.idle refl;
      ended = rw (b, c, a) (omega (arith, h.ended));
      rejects = rw c h.rejects;
    }

-- Requests, each with the dispatcher and the pool that it meets and what the clock measures for it.
abbrev pub Visits : Type 0
Visits = List (Dispatcher × Pool × Request × (Event → ℕ))

unfoldable pub count_visits : Registry → Visits → Registry
unfolding count_events serve_http
count_visits r [] = r
count_visits r ((d, p, q, ms) ∷ vs) = count_visits (count_events r ms (serve_http d p q).events) vs

count_visits-kept : (r : Registry) (vs : Visits) → AddsUp r → AddsUp (count_visits r vs)
unfolding count_visits
count_visits-kept r [] h = h
count_visits-kept r ((d, p, q, ms) ∷ vs) h =
    count_visits-kept (count_events r ms (serve_http d p q).events) vs
      (Course-AddsUp r ms (serve_http d p q).events (serve_http-Course d p q) h)

-- After any requests, one after another, each with whatever dispatcher and pool it meets: none is counted
-- as in flight, and, modulo 2 ^ 64, the requests counted are those whose exchange was timed together with the
-- errors of the kinds body, capacity and acquire; the queue's rejections are the errors of capacity.
pub count_visits-AddsUp : (vs : Visits) → AddsUp (count_visits new_registry vs)
unfolding lookup
count_visits-AddsUp vs =
    count_visits-kept new_registry vs (record { idle = refl; ended = refl; rejects = refl })
