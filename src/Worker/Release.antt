-- ===== src/Worker/Release.antt =====
-- internal/worker/pool.go: `Release` and `Discard`.
pub mod Outcome
pub mod Workers
use eregion.Prelude.{
  modify, ℕ, zero, suc, ◌+◌, ◌-◌, ◌*◌, ◌%◌, ◌^◌, ◌≤◌, ◌<◌, ◌≡◌, refl, Bool, true, false, ◌||◌, ◌&&◌,
  Option, none, some, List, [], ◌∷◌, ◌++◌, ltb, leb, ◌==◌, if◌then◌else◌, length, get_elem?, set,
  arith, keep, not, any, String,
}
use text.Mathlib.Text.{◌==◌ as str_eq}
use eregion.Worker.Types.{
  State, starting, idle, busy, draining, dead, failed, stopped, Mode, http, consumer, is_http,
  is_idle, Worker, Slot, Config, Pool, slot_at, put_slot, worker_at, set_state, is_retired,
  send_idle, is_current, with_state,
}

-- The fields of `protocol.ResponseMeta` that the pool reads or writes.
pub record Meta : Type 0 where
  pub memory_usage : ℕ
  pub recycle : Bool
  pub recycle_reason : String

abbrev pub or_reason : String → String → String
or_reason reason other = if str_eq reason "" then other else reason

abbrev pub requested : Option Meta → Option String
requested none = none
requested (some m) =
    if m.recycle then some (or_reason m.recycle_reason "worker_requested") else none

-- `int(handled) >= MaxRequests`, where a count from 2 ^ 63 on is negative.
abbrev pub spent : Config → ℕ → Bool
spent cfg handled = ltb 0 cfg.max_requests && (ltb handled (2 ^ 63) && leb cfg.max_requests handled)

abbrev pub memory_limit : Config → ℕ
memory_limit cfg = cfg.memory_limit_mb * 1024 * 1024 % 2 ^ 64

abbrev pub oversized : Config → Option Meta → Bool
oversized cfg none = false
oversized cfg (some m) =
    ltb 0 cfg.memory_limit_mb && (ltb 0 m.memory_usage && leb (memory_limit cfg) m.memory_usage)

-- The reason to recycle the worker after `handled` requests, if there is one.
unfoldable pub recycle_reason : Config → ℕ → Option Meta → Option String
recycle_reason cfg handled resp = elim (requested resp) [
  | some r ↦ some r
  | none ↦
      if spent cfg handled
      then some "max_requests"
      else if oversized cfg resp
      then some "memory_limit"
      else none
]

-- What `Release` writes back into the response.
abbrev pub stamp : Option String → Option Meta → Option Meta
stamp none resp = resp
stamp (some r) none = none
stamp (some r) (some m) =
    some (record m { recycle = true; recycle_reason = or_reason m.recycle_reason r })

abbrev pub handled_after : Worker → ℕ
handled_after w = (w.requests_handled + 1) % 2 ^ 64

abbrev pub count_request : Worker → Worker
count_request w = record w { requests_handled = handled_after w }

abbrev pub retire_worker : Worker → Worker
retire_worker w = record w { state = draining; closed = true; signalled = true }

abbrev pub note_recycle : Option String → List String → List String
note_recycle none log = log
note_recycle (some r) log = log ++ (r ∷ [])

abbrev pub is_some {ℓ} : {A : Type ℓ} → Option A → Bool
is_some none = false
is_some (some _) = true

-- How `Release` ends: the worker is not the slot's any more, it goes to its end, or it is to be
-- sent to the channel.
pub data Released : Type 0 where
  forgotten ending returning : Released

-- `Release` up to the send, for the worker `w` at `a`.
unfoldable pub release_section : Pool → ℕ → Option Meta → Pool × Released
unfolding recycle_reason
release_section p a resp = elim (worker_at p a) [
  | none ↦ (p, forgotten)
  | some w ↦
      let reason = recycle_reason p.cfg (handled_after w) resp in
      let q = record p { heap = modify count_request p.heap a } in
      elim (slot_at p.slots w.slot) [
        | none ↦ (q, forgotten)
        | some s ↦
            if not (is_current p s w)
            then (q, forgotten)
            else if p.stopping || (is_some reason || is_retired p s)
            then (
              record q {
                heap = modify retire_worker q.heap a;
                slots = put_slot p.slots w.slot (record s { planned_exit = true });
                recycled = note_recycle reason p.recycled;
              },
              ending,
            )
            else (set_state q a idle, returning)
      ]
]

unfoldable pub finish_release : ℕ → Pool × Released → Pool
finish_release a (p, forgotten) = p
finish_release a (p, ending) = p
finish_release a (p, returning) = send_idle p a

-- Release with nobody in between.
unfoldable pub release : Pool → ℕ → Option Meta → Pool
unfolding finish_release release_section
release p a resp = finish_release a (release_section p a resp)

-- Discard: the worker goes to its end, and its exit will count as a crash.
unfoldable pub discard : Pool → ℕ → Pool
discard p a = elim (worker_at p a) [
  | none ↦ p
  | some w ↦ elim (slot_at p.slots w.slot) [
    | none ↦ p
    | some s ↦
        if is_current p s w
        then record p {
          heap = modify retire_worker p.heap a;
          slots = put_slot p.slots w.slot (record s { planned_exit = false });
        }
        else p
  ]
]

-- The response as `Release` leaves it.
unfoldable pub released_response : Pool → ℕ → Option Meta → Option Meta
unfolding recycle_reason
released_response p a resp = elim (worker_at p a) [
  | none ↦ resp
  | some w ↦ stamp (recycle_reason p.cfg (handled_after w) resp) resp
]
