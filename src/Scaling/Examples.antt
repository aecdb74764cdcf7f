-- ===== src/Scaling/Examples.antt =====
-- The strategies and the hysteresis at concrete inputs.
use eregion.Prelude.{ℕ, ◌+◌, ◌*◌, ◌/◌, ◌≤◌, ◌≡◌, refl, true, none, some, [], ◌∷◌, ltb, leb, arith}
use eregion.Prelude.Int.{pos, pos_part}
use eregion.Prelude.Maps.{lookup, insert, delete}
use eregion.Workload.Model.{ResolvedWorkloadSpec, WorkloadMetrics, default_scaling, seconds}
use eregion.Scaling.Floats.{Floats, Runtime}
use eregion.Scaling.Strategy.{desired_workers}
use eregion.Scaling.Bounds.{
  IsWithin, IsAffordable, that_fit, HasMemoryLimit, desired_workers-IsWithin,
  desired_workers-IsAffordable,
}
use eregion.Scaling.Hysteresis.{Hysteresis, new_hysteresis, down_idle, up_cooldown, damped_workers}
use eregion.Scaling.Patience.{
  Observation, Entry, observe, Run, start, step, WaitsSince, lowers_after_wait,
}
use eregion.Scaling.Cooldown.{raises_apart, wait_survives_demand}

-- Whole numbers in place of float64.
abbrev whole : Floats
whole = record {
  F = ℕ;
  of_int = pos_part;
  mul = λ a b. a * b;
  div = λ a b. a / b;
  is_nonpositive = λ a. leb a 0;
  is_positive = λ a. ltb 0 a;
  ceil_int = pos;
  seconds_of = λ d. pos_part d / 1_000_000_000;
}

abbrev spec : ResolvedWorkloadSpec
spec = record {
  name = "jobs";
  template = "";
  mode = "consumer";
  command = "php" ∷ [];
  queue = record { transport = ""; name = "" };
  workers = record { min = pos 1; max = pos 9 };
  resources = record { class' = "cpu"; memory_mb = pos 256 };
  scaling = record default_scaling { strategy = "resources" };
}

-- Eight CPUs, and 1 GiB of memory, which is enough for four workers.
abbrev host : Runtime ℕ
host = record {
  logical_cpus = pos 8;
  available_cpus = 8;
  memory_limit_bytes = 1_073_741_824;
  memory_limit_known = true;
}

desired_workers-IsWithin_example : IsWithin (desired_workers whole none spec host) (pos 1) (pos 9)
desired_workers-IsWithin_example =
    desired_workers-IsWithin whole none spec host (omega arith) (omega arith)

host-limit : HasMemoryLimit spec host
host-limit = record {
  declared = omega arith;
  no_wrap = omega arith;
  known = refl;
  some_bytes = omega arith;
}

desired_workers-IsAffordable_example :
    IsAffordable (desired_workers whole none spec host) (pos 1) (that_fit spec 1_073_741_824)
desired_workers-IsAffordable_example = desired_workers-IsAffordable whole none spec host host-limit

four_fit : desired_workers whole none spec host ≡ pos 4
unfolding desired_workers
four_fit = refl

abbrev metrics : ℕ → WorkloadMetrics
metrics n = record {
  desired = pos n;
  running = pos n;
  idle = pos 0;
  busy = pos 0;
  draining = pos 0;
  failed = pos 0;
  backlog = pos 0;
}

abbrev at_second : ℕ → ℕ → Observation
at_second s raw = record { now = s * 1_000_000_000; raw = pos raw; metrics = metrics 3 }

abbrev made : ℕ → ℕ → ℕ → ℕ → Entry
made s prev raw n = record {
  now = s * 1_000_000_000;
  prev = pos prev;
  raw = pos raw;
  result = pos n;
}

-- From 3 workers to 5 in the second 1, and less wanted from the second 2 on.
abbrev raised_state : Hysteresis
raised_state = record {
  last_scale_up = some 1_000_000_000;
  scale_down_since = [];
  last_desired = ("jobs", pos 5) ∷ [];
}

abbrev low_state : Hysteresis
low_state = record raised_state { scale_down_since = ("jobs", 2_000_000_000) ∷ [] }

raised_run : Run spec new_hysteresis raised_state (made 1 3 5 5 ∷ [])
unfolding damped_workers lookup insert delete
raised_run = step start (at_second 1 5)

low_run : Run spec new_hysteresis low_state (made 1 3 5 5 ∷ made 2 5 2 5 ∷ [])
unfolding damped_workers lookup insert delete
low_run = step raised_run (at_second 2 2)

lowers_after_wait_example :
    (since : ℕ) × WaitsSince (made 1 3 5 5 ∷ made 2 5 2 5 ∷ []) since
    × (since + down_idle spec ≤ 32_000_000_000)
unfolding damped_workers lookup
lowers_after_wait_example = lowers_after_wait (at_second 32 2) refl low_run (omega arith)

raises_apart_example : 1_000_000_000 + up_cooldown spec ≤ 5_000_000_000
unfolding damped_workers lookup
raises_apart_example = raises_apart (at_second 5 7) 1_000_000_000 refl raised_run refl (omega arith)

-- A cooldown of a minute: more is wanted in the second 10, which is too early.
abbrev slow_spec : ResolvedWorkloadSpec
slow_spec = record spec { scaling = record default_scaling { scale_up_cooldown = seconds 60 } }

wait_survives_demand_example :
    (observe slow_spec (observe slow_spec low_state (at_second 10 7)).0 (at_second 32 2)).1 ≡ pos 2
unfolding lookup
wait_survives_demand_example =
    wait_survives_demand slow_spec low_state 2_000_000_000 (at_second 10 7) (at_second 32 2) refl
      (omega arith) refl (omega arith) (omega arith)
