-- ===== src/Worker/Monitor.antt =====
-- internal/worker/pool.go: `monitor` and `purgeIdle`, what the pool does when a process has exited.
pub mod Purge
use eregion.Prelude.{
  modify, ℕ, zero, suc, ◌+◌, ◌%◌, ◌^◌, ◌≤◌, ◌<◌, ◌≡◌, refl, Bool, true, false, ◌||◌, ◌&&◌, Option,
  none, some, List, [], ◌∷◌, ◌++◌, ltb, leb, ◌==◌, if◌then◌else◌, length, get_elem?, set, arith,
  keep, not,
}
use eregion.Worker.Types.{
  State, starting, idle, busy, draining, dead, failed, stopped, Worker, Slot, Config, Pool, slot_at,
  put_slot, worker_at, set_state, is_retired, send_idle, is_current,
}
use eregion.Worker.Restarts.{record_crash, exceeded_restart_policy}
use eregion.Worker.Boot.{schedule_restart}

-- `cur == w || (cur.ID == w.ID && cur.Generation == w.Generation)`; an ID is the slot's number.
unfoldable pub same_worker : List Worker → ℕ → ℕ → Bool
same_worker heap a b = a == b || elim (get_elem? heap a) [
  | none ↦ false
  | some v ↦ elim (get_elem? heap b) [
    | none ↦ false
    | some w ↦ v.slot == w.slot && v.generation == w.generation
  ]
]

-- The loop of `purgeIdle`: so many receives, each sent back unless it is the worker's.
unfoldable pub purge_loop : (ℕ → Bool) → ℕ → ℕ → List ℕ → List ℕ
purge_loop gone cap zero channel = channel
purge_loop gone cap (suc n) [] = []
purge_loop gone cap (suc n) (x ∷ rest) =
    purge_loop gone cap n
      (if gone x then rest else if ltb (length rest) cap then rest ++ (x ∷ []) else rest)

unfoldable pub purge_idle : Pool → ℕ → Pool
unfolding same_worker purge_loop
purge_idle p a = record p {
  channel = purge_loop (λ x. same_worker p.heap x a) p.channel_cap (length p.channel) p.channel;
}

pub data AfterExit : Type 0 where
  stale ended slot_failed : AfterExit
  restart : Bool → AfterExit

-- What the first critical section learns.
pub record Exit : Type 0 where
  pub planned : Bool
  pub final : Bool

abbrev pub is_draining : State → Bool
is_draining draining = true
is_draining _ = false

abbrev pub bury : Worker → Worker
bury w = record w { state = dead; closed = true }

-- The first critical section of `monitor` for the worker at `a` of slot `k`; `none` for a worker
-- whose generation is not the slot's.
unfoldable pub exit_section : Pool → ℕ → ℕ → Bool → Pool × Option Exit
exit_section p k a clean = elim (slot_at p.slots k) [
  | none ↦ (p, none)
  | some s ↦ elim (worker_at p a) [
    | none ↦ (p, none)
    | some w ↦
        if is_current p s w
        then (
          record p {
            heap = modify bury p.heap a;
            slots = put_slot p.slots k (record s { worker = none });
          },
          some (record {
            planned = s.planned_exit || (clean && is_draining w.state);
            final = p.stopping || is_retired p s;
          }),
        )
        else (p, none)
  ]
]

-- The second critical section, for an exit that was not planned; true if the slot has failed.
unfoldable pub crash_section : Pool → ℕ → ℕ → Pool × Bool
crash_section p k now = elim (slot_at p.slots k) [
  | none ↦ (p, true)
  | some s ↦
      let s' = record_crash p.cfg now s in
      (
        record p { slots = put_slot p.slots k s'; restarted = p.restarted + 1 },
        exceeded_restart_policy p.cfg s',
      )
]

after_crash : ℕ → Pool × Bool → Pool × AfterExit
after_crash k (p, true) = (p, slot_failed)
after_crash k (p, false) = (schedule_restart p k true, restart true)

after_exit : ℕ → ℕ → ℕ → Pool × Option Exit → Pool × AfterExit
unfolding after_crash purge_idle crash_section
after_exit k a now (p, none) = (p, stale)
after_exit k a now (p, some e) =
    let q = purge_idle p a in
    if e.final
    then (q, ended)
    else if e.planned
    then (schedule_restart q k false, restart false)
    else after_crash k (crash_section q k now)

-- `monitor` of the worker at `a` in slot `k`, from the return of `Wait` on, with nobody in between.
unfoldable pub monitor : Pool → ℕ → ℕ → Bool → ℕ → Pool × AfterExit
unfolding after_exit exit_section
monitor p k a clean now = after_exit k a now (exit_section p k a clean)
