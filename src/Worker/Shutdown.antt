-- ===== src/Worker/Shutdown.antt =====
-- internal/worker/pool.go: `Shutdown`, up to the wait for the processes.
use eregion.Prelude.{modify, ℕ, true, none, some, List, [], ◌∷◌, ◌++◌, if◌then◌else◌}
use eregion.Worker.Types.{draining, stopped, is_ending, Worker, Slot, Pool}
use eregion.Worker.Scale.{end_worker}

abbrev pub stop_idle : Worker → Worker
stop_idle w = record w { state = stopped; closed = true; signalled = true }

-- The loop that empties the channel.
unfoldable pub stop_channel : List Worker → List ℕ → List Worker
stop_channel heap [] = heap
stop_channel heap (a ∷ rest) = stop_channel (modify stop_idle heap a) rest

abbrev pub shut_worker : Worker → Worker
shut_worker w = record w { state = if is_ending w.state then w.state else draining }

abbrev pub held : Slot → List ℕ
held s = elim s.worker [ none ↦ [] | some a ↦ a ∷ [] ]

abbrev pub plan_exit : Slot → Slot
plan_exit s = record s { planned_exit = elim s.worker [ none ↦ s.planned_exit | some _ ↦ true ] }

-- The loop over the slots: their workers are marked, and remembered in `remaining`.
unfoldable pub remaining : List Slot → List ℕ
remaining [] = []
remaining (s ∷ ss) = held s ++ remaining ss

unfoldable pub plan_exits : List Slot → List Slot
plan_exits [] = []
plan_exits (s ∷ ss) = plan_exit s ∷ plan_exits ss

unfoldable pub update_all : (Worker → Worker) → List Worker → List ℕ → List Worker
update_all f heap [] = heap
update_all f heap (a ∷ more) = update_all f (modify f heap a) more

-- The critical section with that loop.
unfoldable pub shut_section : Pool → Pool
unfolding remaining plan_exits update_all
shut_section p = record p {
  slots = plan_exits p.slots;
  heap = update_all shut_worker p.heap (remaining p.slots);
}

-- Shutdown with nobody in between: new work is refused, idle workers are stopped, and every other worker of
-- a slot is marked and terminated.
unfoldable pub shutdown : Pool → Pool
unfolding stop_channel shut_section
shutdown p =
    let q =
      shut_section
        (record p { stopping = true; channel = []; heap = stop_channel p.heap p.channel }) in
    record q { heap = update_all end_worker q.heap (remaining p.slots) }
