-- ===== src/Worker/Boot.antt =====
-- internal/worker/pool.go: `bootSlot` and `scheduleRestart`, split at their critical sections, and
-- `Start`. What the operating system and the worker process answer is an argument.
use eregion.Prelude.{
  ℕ, ◌+◌, ◌%◌, ◌^◌, Bool, true, false, ◌||◌, Option, none, some, [], ◌∷◌, ◌++◌, if◌then◌else◌,
  length,
}
use eregion.Worker.Types.{
  idle, is_http, Worker, Slot, Pool, slot_at, put_slot, is_retired, send_idle,
}
use eregion.Worker.Restarts.{record_crash, exceeded_restart_policy}

-- What `bootSlot` hands to the starter.
pub record Ticket : Type 0 where
  pub slot : ℕ
  pub generation : ℕ
  pub restart_count : ℕ

pub data BootResult : Type 0 where
  booted : ℕ → BootResult
  shutting_down slot_failed retried : BootResult

-- `p.stopping || s.retired || s.index > p.desired`
abbrev pub refuses : Pool → Slot → Bool
refuses p s = p.stopping || is_retired p s

-- The first critical section: a new generation.
unfoldable pub boot_begin : Pool → ℕ → Pool × Option Ticket
boot_begin p k = elim (slot_at p.slots k) [
  | none ↦ (p, none)
  | some s ↦
      if refuses p s
      then (p, none)
      else let gen : ℕ = (s.generation + 1) % 2 ^ 64 in
        (
          record p { slots = put_slot p.slots k (record s { generation = gen }) },
          some (record { slot = s.index; generation = gen; restart_count = s.restart_count }),
        )
]

-- `Starter.Start` and `ConsumerStarter.Start`, where they succeed.
abbrev pub started : Ticket → Worker
started t = record {
  slot = t.slot;
  generation = t.generation;
  state = idle;
  requests_handled = 0;
  restart_count = t.restart_count;
  closed = false;
  signalled = false;
}

-- The critical section after a start that failed; true if the slot has failed for good.
unfoldable pub boot_fail : Pool → ℕ → Bool → ℕ → Pool × Bool
boot_fail p k after_crash now = elim (slot_at p.slots k) [
  | none ↦ (p, true)
  | some s ↦
      let s' = record s { worker = none } in
      let s'' = (if after_crash then record_crash p.cfg now s' else s') in
      (record p { slots = put_slot p.slots k s'' }, exceeded_restart_policy p.cfg s'')
]

-- The critical section after a start that succeeded: the address of the worker installed, or
-- `none` where the process is terminated instead.
unfoldable pub boot_install : Pool → ℕ → Worker → Pool × Option ℕ
boot_install p k w = elim (slot_at p.slots k) [
  | none ↦ (p, none)
  | some s ↦
      if refuses p s
      then (p, none)
      else let a : ℕ = length p.heap in
        (
          record p {
            heap = p.heap ++ (w ∷ []);
            slots =
                put_slot p.slots k
                  (record s { worker = some a; planned_exit = false; failures = 0 });
          },
          some a,
        )
]

-- The send that follows, outside the lock.
unfoldable pub boot_publish : Pool → ℕ → Pool
boot_publish p a = if is_http p.mode then send_idle p a else p

-- scheduleRestart: the part before the timer. `Next` counts a failure.
unfoldable pub schedule_restart : Pool → ℕ → Bool → Pool
schedule_restart p k use_backoff = elim (slot_at p.slots k) [
  | none ↦ p
  | some s ↦
      if use_backoff
      then record p { slots = put_slot p.slots k (record s { failures = s.failures + 1 }) }
      else p
]

-- scheduleRestart: whether the slot boots when the timer fires.
unfoldable pub restart_fires : Pool → ℕ → Bool
restart_fires p k = elim (slot_at p.slots k) [
  | none ↦ false
  | some s ↦ if refuses p s then false else true
]

finish_boot : Pool × Option ℕ → Pool × BootResult
unfolding boot_publish
finish_boot (p, none) = (p, shutting_down)
finish_boot (p, some a) = (boot_publish p a, booted a)

fail_boot : ℕ → Pool × Bool → Pool × BootResult
unfolding schedule_restart
fail_boot k (p, true) = (p, slot_failed)
fail_boot k (p, false) = (schedule_restart p k true, retried)

start_boot : ℕ → Bool → ℕ → Bool → Pool × Option Ticket → Pool × BootResult
unfolding finish_boot fail_boot boot_install boot_fail
start_boot k after_crash now succeeds (p, none) = (p, shutting_down)
start_boot k after_crash now true (p, some t) = finish_boot (boot_install p k (started t))
start_boot k after_crash now false (p, some t) = fail_boot k (boot_fail p k after_crash now)

-- bootSlot with nobody in between; `succeeds` is what the starter answers.
unfoldable pub boot_slot : Pool → ℕ → Bool → ℕ → Bool → Pool × BootResult
unfolding start_boot boot_begin
boot_slot p k after_crash now succeeds = start_boot k after_crash now succeeds (boot_begin p k)
