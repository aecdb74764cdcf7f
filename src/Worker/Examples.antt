-- ===== src/Worker/Examples.antt =====
-- A small pool, runs of its operations, and the pool's theorems at concrete inputs.
use eregion.Prelude.{
  ℕ, ◌+◌, ◌≤◌, ◌≡◌, ◌⊎◌, refl, true, false, none, some, [], ◌∷◌, length, arith, keep, map, All,
}
use eregion.Prelude.Counts.{count, remove}
use eregion.Worker.Types.{State, idle, busy, http, Config, Slot, Worker, Pool, set_state, send_idle}
use eregion.Worker.Restarts.{exceeded_restart_policy, crashes, exceeded-crashes}
use eregion.Worker.Boot.{boot_install, started}
use eregion.Worker.Monitor.{purge_idle, same_worker}
use eregion.Worker.Scale.{scale_section, new_slot}
use eregion.Worker.Scale.Slots.{IsNumbered}
use eregion.Worker.Scale.Plans.{index_of, is_vacant, covered_slots, IsNearest, scale_section-plan}
use eregion.Worker.Scale.Drains.{IsSparing, to_drain-IsSparing}
use eregion.Worker.Acquire.{look, is_idle_at, try_acquire}
use eregion.Worker.Acquire.Handout.{Outcome, try_acquire-Outcome}
use eregion.Worker.Release.{release, recycle_reason}
use eregion.Worker.Release.Outcome.{
  MustRecycle, MustEnd, IsEnding, IsKept, recycle_reason_iff, release_outcome,
}
use eregion.Worker.Snapshot.{snapshot, healthy_count}
use eregion.Worker.Snapshot.Totals.{over_all, snapshot_totals}
use eregion.Worker.System.{
  System, Reach, here, next, receive, look_at, check, mark, install, publish, add_booted,
  add_looked, add_if,
}
use eregion.Worker.System.Exclusive.{elsewhere, leased_once}
use eregion.Worker.System.Races.{IsOrphaned, begun, ticket, booted_twice, booted_twice-IsOrphaned}

abbrev cfg : Config
cfg = record {
  max_requests = 2;
  memory_limit_mb = 256;
  restart_limit = 2;
  restart_window = 100;
  queue_capacity = 16;
}

abbrev worker : ℕ → State → Worker
worker k st = record {
  slot = k;
  generation = 1;
  state = st;
  requests_handled = 0;
  restart_count = 0;
  closed = false;
  signalled = false;
}

abbrev held_slot : ℕ → ℕ → Slot
held_slot k a = record (new_slot k) { generation = 1; worker = some a }

-- Two slots, the first busy and the second idle; the channel still names the busy one.
abbrev pool : Pool
pool = record {
  mode = http;
  cfg = cfg;
  slots = held_slot 1 0 ∷ held_slot 2 1 ∷ [];
  heap = worker 1 busy ∷ worker 2 idle ∷ [];
  channel = 0 ∷ 1 ∷ [];
  channel_cap = 4;
  desired = 2;
  min_ready = 1;
  min_w = 1;
  max_w = 4;
  stopping = false;
  recycled = [];
  restarted = 0;
  scaled = [];
}

abbrev empty_pool : Pool
empty_pool = record pool { slots = new_slot 1 ∷ []; heap = []; channel = []; desired = 1 }

exceeded-crashes_example :
    exceeded_restart_policy cfg (crashes cfg (10 ∷ 20 ∷ 30 ∷ []) (new_slot 1)) ≡ true
exceeded-crashes_example = exceeded-crashes cfg (new_slot 1) 10 (20 ∷ 30 ∷ []) (omega arith)

purged : (purge_idle pool 0).channel ≡ 1 ∷ []
unfolding purge_idle same_worker
purged = refl

try_acquire-Outcome_example : Outcome pool (0 ∷ 1 ∷ []) (try_acquire pool)
try_acquire-Outcome_example = try_acquire-Outcome pool refl refl

scale_section-plan_example :
    let r = scale_section pool 3 in
    (r.pool.desired ≡ 3)
    × IsNearest 1 4 3 3
    × (3 ≤ length r.pool.slots)
    × (2 ≤ length r.pool.slots)
    × IsNumbered 0 r.pool.slots
    × (r.to_boot ≡ map index_of (keep (is_vacant cfg 3) (covered_slots pool 3)))
scale_section-plan_example = scale_section-plan pool 3 refl refl (omega arith)

to_drain-IsSparing_example :
    All (IsSparing pool (scale_section pool 1).pool.heap) (scale_section pool 1).to_drain
to_drain-IsSparing_example = to_drain-IsSparing pool 1 refl

recycle_reason_iff_example : MustRecycle cfg 2 none
recycle_reason_iff_example =
    (recycle_reason_iff cfg 2 none (omega arith)).0 (unfold recycle_reason in refl)

release_outcome_example :
    MustEnd pool (held_slot 1 0) 1 none
      × IsEnding pool (release pool 0 none) 0 (worker 1 busy) (held_slot 1 0)
    ⊎ (¬ MustEnd pool (held_slot 1 0) 1 none) × IsKept pool (release pool 0 none) 0 (worker 1 busy)
release_outcome_example =
    release_outcome pool 0 (worker 1 busy) (held_slot 1 0) none refl refl refl (omega arith)

snapshot_totals_example :
    let c = snapshot pool 3 in
    (c.running ≡ healthy_count c + over_all pool pool.slots)
    × (c.running + c.booting + c.failing ≤ 2)
    × (c.desired ≡ 2)
    × (c.waiting ≡ 3)
    × (c.capacity ≡ 16)
snapshot_totals_example = snapshot_totals pool 3

booted_twice-IsOrphaned_example :
    IsOrphaned empty_pool
      (booted_twice empty_pool 1
        (started (ticket (new_slot 1)))
        (started (ticket (begun (new_slot 1)))))
      1
      (started (ticket (new_slot 1)))
booted_twice-IsOrphaned_example =
    (booted_twice-IsOrphaned empty_pool 1 (new_slot 1)
      (record { found = refl; running = refl; kept = refl; within = omega arith })).4

abbrev at_rest : Pool → System
at_rest p = record {
  pool = p;
  fresh = [];
  received = [];
  looked = [];
  taken = [];
  leased = [];
  returned = [];
  purged = [];
}

-- The channel offers the idle worker of the second slot, and one worker is enough.
abbrev offering : System
offering = at_rest (record pool { channel = 1 ∷ [] })

abbrev served : System
served =
    let w = worker 1 idle in
    let p1 = (boot_install empty_pool 1 w).0 in
    let p2 = send_idle p1 0 in
    let p3 = record p2 { channel = [] } in
    record (at_rest (set_state p3 0 busy)) {
      fresh = remove 0 (add_booted (boot_install empty_pool 1 w).1 []);
      received = remove 0 (0 ∷ []);
      looked = remove 0 (add_looked (look p3 0) 0 []);
      taken = remove 0 (add_if (is_idle_at p3 0) 0 []);
      leased = 0 ∷ [];
    }

-- A boot, its send to the channel, and a request that takes the worker.
served-Reach : Reach (at_rest empty_pool) served
unfolding boot_install send_idle count look is_idle_at remove
served-Reach =
    next
      (next
        (next
          (next (next (next here (install 1 (worker 1 idle))) (publish 0 (omega arith)))
            (receive 0 [] refl))
          (look_at 0 (omega arith)))
        (check 0 (omega arith)))
      (mark 0 (omega arith))

leased_once_example : ◌≡◌ {A = ℕ} 0 0 × (elsewhere served 0 ≡ 0)
leased_once_example =
    leased_once {i = 0} {j = 0} {a = 0}
      (record {
        no_workers = refl;
        no_idle = refl;
        no_fresh = refl;
        no_received = refl;
        no_looked = refl;
        no_taken = refl;
        no_leased = refl;
        no_returned = refl;
        no_purged = refl;
      })
      served-Reach refl refl
