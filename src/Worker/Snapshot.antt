-- ===== src/Worker/Snapshot.antt =====
-- internal/worker/pool.go: `Snapshot`, `HealthyCount` and `Shutdown`.
pub mod Totals
use eregion.Prelude.{
  ℕ, zero, suc, ◌+◌, ◌-◌, ◌*◌, ◌≤◌, ◌<◌, ◌≡◌, refl, Bool, true, false, ◌||◌, ◌&&◌, Option, none,
  some, List, [], ◌∷◌, ◌++◌, ltb, leb, ◌==◌, if◌then◌else◌, length, get_elem?, set, arith, keep,
  not, any,
}
use eregion.Worker.Types.{
  State, starting, idle, busy, draining, dead, failed, stopped, Mode, http, consumer, is_http,
  is_ending, Worker, Slot, Config, Pool, slot_at, put_slot, worker_at, set_state, is_retired,
  send_idle, is_current, with_state,
}
use eregion.Worker.Scale.{end_worker}

pub record PoolSnapshot : Type 0 where
  pub desired : ℕ
  pub running : ℕ
  pub idling : ℕ
  pub working : ℕ
  pub booting : ℕ
  pub failing : ℕ
  pub leaving : ℕ
  pub waiting : ℕ
  pub capacity : ℕ

-- What a slot adds to the counters.
abbrev pub tally_state : State → PoolSnapshot → PoolSnapshot
tally_state idle c = record c { idling = c.idling + 1; running = c.running + 1 }
tally_state busy c = record c { working = c.working + 1; running = c.running + 1 }
tally_state starting c = record c { booting = c.booting + 1 }
tally_state draining c = record c { leaving = c.leaving + 1; running = c.running + 1 }
tally_state failed c = record c { failing = c.failing + 1 }
tally_state _ c = record c { running = c.running + 1 }

unfoldable pub tally : Pool → Slot → PoolSnapshot → PoolSnapshot
tally p s c = elim s.worker [
  | none ↦
      if s.retired
      then c
      else if ltb p.cfg.restart_limit (length s.restarts) && ltb 0 p.cfg.restart_limit
      then record c { failing = c.failing + 1 }
      else if leb s.index p.desired
      then record c { booting = c.booting + 1 }
      else c
  | some a ↦ elim (worker_at p a) [ none ↦ c | some w ↦ tally_state w.state c ]
]

unfoldable pub tally_all : Pool → List Slot → PoolSnapshot → PoolSnapshot
unfolding tally
tally_all p [] c = c
tally_all p (s ∷ ss) c = tally_all p ss (tally p s c)

abbrev pub blank : Pool → ℕ → PoolSnapshot
blank p waiting = record {
  desired = p.desired;
  running = 0;
  idling = 0;
  working = 0;
  booting = 0;
  failing = 0;
  leaving = 0;
  waiting = waiting;
  capacity = p.cfg.queue_capacity;
}

-- Snapshot; `waiting` is what the queue provider answers.
unfoldable pub snapshot : Pool → ℕ → PoolSnapshot
unfolding tally_all
snapshot p waiting = tally_all p p.slots (blank p waiting)

unfoldable pub healthy_count : PoolSnapshot → ℕ
healthy_count c = c.idling + c.working + c.leaving
