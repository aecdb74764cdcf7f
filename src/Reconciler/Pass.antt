-- ===== src/Reconciler/Pass.antt =====
-- internal/reconciler/reconciler.go: `ReconcileOnce`. The order in which the maps are listed is the
-- argument's. A pool whose boots `SetDesired` starts boots in goroutines of its own.
use text.Mathlib.Text.{◌==◌ as str_eq}
use eregion.Prelude.{
  ℕ, Bool, true, false, ◌||◌, Option, none, some, List, [], ◌∷◌, if◌then◌else◌, any, String,
}
use eregion.Prelude.Int.{ℤ, pos, pos_part, ltb_ℤ}
use eregion.Prelude.Maps.{lookup, insert, delete}
use eregion.Worker.Types.{Pool}
use eregion.Worker.Scale.{set_desired}
use eregion.Worker.Snapshot.{PoolSnapshot, snapshot}
use eregion.Workload.Model.{ResolvedWorkloadSpec, WorkloadMetrics}
use eregion.Scaling.Floats.{Floats, Runtime}
use eregion.Scaling.Strategy.{Provider, desired_workers}
use eregion.Scaling.Hysteresis.{Hysteresis, new_hysteresis, damped_workers}
use eregion.Reconciler.Manager.{Manager, ensure, remove}

pub record Reconciler : Type 0 where
  pub manager : Manager
  pub hysteresis : List (String × Hysteresis)

abbrev pub metrics_of : PoolSnapshot → WorkloadMetrics
metrics_of s = record {
  desired = pos s.desired;
  running = pos s.running;
  idle = pos s.idling;
  busy = pos s.working;
  draining = pos s.leaving;
  failed = pos s.failing;
  backlog = pos 0;
}

abbrev pub differs : ℤ → ℤ → Bool
differs a b = ltb_ℤ a b || ltb_ℤ b a

-- A negative number is below every minimum, as 0 is.
abbrev pub aim : Pool → ℤ → Pool
aim p target =
    if differs target (pos (snapshot p 0).desired)
    then (set_desired p (pos_part target)).pool
    else p

abbrev pub or_new : Option Hysteresis → Hysteresis
or_new none = new_hysteresis
or_new (some h) = h

abbrev pub with_pool : Manager → String → Pool → Manager
with_pool m name p = record m { pools = insert m.pools name p }

module _ (fl : Floats) (provider : Option Provider) (runtime : Runtime fl.F) (now : ℕ) where
  abbrev pub damp : Reconciler → ResolvedWorkloadSpec → Pool → Hysteresis × ℤ
  damp r spec p =
      damped_workers (or_new (lookup r.hysteresis spec.name)) spec (metrics_of (snapshot p 0))
        (desired_workers fl provider spec runtime) now

  -- The body of the loop, for the pool that `Ensure` gave.
  unfoldable pub set_target : Reconciler → ResolvedWorkloadSpec → Manager × Pool → Reconciler
  set_target r spec (m, p) = record {
    manager = with_pool m spec.name (aim p (damp r spec p).1);
    hysteresis = insert r.hysteresis spec.name (damp r spec p).0;
  }

  unfoldable pub reconcile_specs : Reconciler → List ResolvedWorkloadSpec → Reconciler
  unfolding set_target
  reconcile_specs r [] = r
  reconcile_specs r (spec ∷ specs) =
      reconcile_specs (set_target r spec (ensure r.manager spec)) specs

abbrev pub is_wanted : List ResolvedWorkloadSpec → String → Bool
is_wanted specs name = any (λ s. str_eq s.name name) specs

-- A pool goes, unless it is wanted.
abbrev pub drop_pool : Bool → Reconciler → String → Reconciler
drop_pool true r name = r
drop_pool false r name = record {
  manager = (remove r.manager name).0;
  hysteresis = delete r.hysteresis name;
}

unfoldable pub remove_unwanted : List ResolvedWorkloadSpec → Reconciler → List String → Reconciler
remove_unwanted specs r [] = r
remove_unwanted specs r (name ∷ names) =
    remove_unwanted specs (drop_pool (is_wanted specs name) r name) names

abbrev pub keys {ℓ} : {A : Type ℓ} → List (String × A) → List String
keys [] = []
keys ((k, v) ∷ m) = k ∷ keys m

unfoldable pub reconcile_once :
    (fl : Floats)
    → Option Provider
    → Runtime fl.F
    → ℕ
    → Reconciler
    → List ResolvedWorkloadSpec
    → Reconciler
unfolding reconcile_specs remove_unwanted
reconcile_once fl provider runtime now r specs =
    let q = reconcile_specs fl provider runtime now r specs in
    remove_unwanted specs q (keys q.manager.pools)
