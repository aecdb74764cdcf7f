-- ===== src/Worker/Scale.antt =====
-- internal/worker/pool.go: `SetDesired`, and `Start`'s first section.
pub mod Slots
pub mod Plans
pub mod Drains
pub mod Race
use eregion.Prelude.{
  modify, ℕ, zero, suc, ◌+◌, ◌-◌, ◌≤◌, ◌<◌, ◌≡◌, refl, Bool, true, false, ◌||◌, ◌&&◌, Option, none,
  some, List, [], ◌∷◌, ◌++◌, ltb, leb, ◌==◌, if◌then◌else◌, length, get_elem?, set, arith, keep,
  not, any,
}
use eregion.Worker.Types.{
  State, starting, idle, busy, draining, dead, failed, stopped, Mode, http, consumer, is_http,
  is_ending, is_busy, Worker, Slot, Config, Pool, Direction, up, down, slot_at, put_slot, worker_at,
  set_state, is_retired, send_idle, is_current, with_state,
}
use eregion.Worker.Restarts.{exceeded_restart_policy}
use eregion.Worker.Monitor.{purge_idle}

abbrev pub new_slot : ℕ → Slot
new_slot i = record {
  index = i;
  generation = 0;
  worker = none;
  failures = 0;
  restarts = [];
  restart_count = 0;
  planned_exit = false;
  retired = false;
}

-- Appends `n` slots to `slots`, numbered on from its length.
unfoldable pub grow : ℕ → List Slot → List Slot
grow zero slots = slots
grow (suc n) slots = grow n (slots ++ (new_slot (length slots + 1) ∷ []))

-- Start: the slots of the initial size.
unfoldable pub start_slots : Pool → Pool
unfolding grow
start_slots p = record p { slots = grow p.desired [] }

abbrev pub clamp : ℕ → ℕ → ℕ → ℕ
clamp min_w max_w n =
    let m = (if ltb n min_w then min_w else n) in if ltb 0 max_w && ltb max_w m then max_w else m

-- A slot that should have a worker and has none.
abbrev pub wants_boot : Config → ℕ → Slot → Bool
wants_boot cfg n s =
    leb s.index n
    && (elim s.worker [ none ↦ true | some _ ↦ false ]
        && (not s.retired && not (exceeded_restart_policy cfg s)))

-- `s.retired = i+1 > n`, for the slots from position `i` on.
unfoldable pub retire : ℕ → ℕ → List Slot → List Slot
retire n i [] = []
retire n i (s ∷ ss) = record s { retired = ltb n (i + 1) } ∷ retire n (i + 1) ss

pub data Task : Type 0 where
  nothing : Task
  drain_task : ℕ → Task
  boot_task : ℕ → Task

-- What the loop over the slots decides for a worker of a slot above the new size.
abbrev pub drain_decision : Mode → State → Bool
drain_decision mode st = not (is_busy st && is_http mode) && not (is_ending st)

-- One round of the loop over the slots.
unfoldable pub scale_slot : Mode → Config → ℕ → List Worker → Slot → Task
scale_slot mode cfg n heap s =
    if ltb n s.index
    then elim s.worker [
      | none ↦ nothing
      | some a ↦ elim (get_elem? heap a) [
        | none ↦ nothing
        | some w ↦ if drain_decision mode w.state then drain_task a else nothing
      ]
    ]
    else elim s.worker [
      | some _ ↦ nothing
      | none ↦ if exceeded_restart_policy cfg s then nothing else boot_task s.index
    ]

pub record Plan : Type 0 where
  pub slots : List Slot
  pub heap : List Worker
  pub to_drain : List ℕ
  pub to_boot : List ℕ

abbrev pub apply_task : Task → Slot → List Worker → Plan → Plan
apply_task nothing s heap rest = record rest { slots = s ∷ rest.slots }
apply_task (drain_task a) s heap rest = record rest {
  slots = record s { planned_exit = true } ∷ rest.slots;
  to_drain = a ∷ rest.to_drain;
}
apply_task (boot_task i) s heap rest = record rest {
  slots = s ∷ rest.slots;
  to_boot = i ∷ rest.to_boot;
}

abbrev pub task_heap : Task → List Worker → List Worker
task_heap (drain_task a) heap = modify (with_state draining) heap a
task_heap _ heap = heap

-- The loop that fills `toBoot` and `toDrain`.
unfoldable pub scale_slots : Mode → Config → ℕ → List Worker → List Slot → Plan
scale_slots mode cfg n heap [] = record { slots = []; heap = heap; to_drain = []; to_boot = [] }
scale_slots mode cfg n heap (s ∷ ss) =
    let task = scale_slot mode cfg n heap s in
    apply_task task s heap (scale_slots mode cfg n (task_heap task heap) ss)

pub record Scaled : Type 0 where
  pub pool : Pool
  pub to_drain : List ℕ
  pub to_boot : List ℕ
  pub direction : Option Direction

abbrev pub unchanged : Pool → Scaled
unchanged p = record { pool = p; to_drain = []; to_boot = []; direction = none }

abbrev pub direction_of : ℕ → ℕ → Option Direction
direction_of old n = if ltb old n then some up else if ltb n old then some down else none

-- `n == old && len(p.slots) >= n` and no slot needs a boot: nothing to do.
abbrev pub is_settled : Pool → ℕ → Bool
is_settled p n =
    (n == p.desired && leb n (length p.slots)) && not (any (wants_boot p.cfg n) p.slots)

-- The critical section of `SetDesired`.
unfoldable pub scale_section : Pool → ℕ → Scaled
unfolding grow retire scale_slot scale_slots
scale_section p wanted =
    if p.stopping
    then unchanged p
    else let n = clamp p.min_w p.max_w wanted in
      if is_settled p n
      then unchanged p
      else let plan =
          scale_slots p.mode p.cfg n p.heap (retire n 0 (grow (n - length p.slots) p.slots)) in
        record {
          pool = record p { desired = n; slots = plan.slots; heap = plan.heap };
          to_drain = plan.to_drain;
          to_boot = plan.to_boot;
          direction = direction_of p.desired n;
        }

-- `terminateWorker`, up to the signal.
abbrev pub end_worker : Worker → Worker
end_worker w = record w { closed = true; signalled = true }

-- The loop over `toDrain`.
unfoldable pub drain_all : Pool → List ℕ → Pool
unfolding purge_idle
drain_all p [] = p
drain_all p (a ∷ more) =
    let q = purge_idle p a in drain_all (record q { heap = modify end_worker q.heap a }) more

abbrev pub note_direction : Option Direction → Pool → Pool
note_direction none p = p
note_direction (some d) p = record p { scaled = p.scaled ++ (d ∷ []) }

-- SetDesired with nobody in between; the boots of `to_boot` are goroutines of their own.
unfoldable pub set_desired : Pool → ℕ → Scaled
unfolding scale_section drain_all
set_desired p wanted =
    let r = scale_section p wanted in
    record r { pool = note_direction r.direction (drain_all r.pool r.to_drain) }
