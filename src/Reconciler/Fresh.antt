-- ===== src/Reconciler/Fresh.antt =====
-- The pools that `Ensure` makes.
use eregion.Prelude.{◌≤◌, ◌<◌, ◌≡◌, ◌≢◌, refl, Option, none, some, [], String, arith, inl, inr, ◌⊎◌}
use eregion.Prelude.Maps.{lookup, lookup-insert_self, lookup-insert_ne}
use eregion.Worker.Types.{Pool, new_workload_pool}
use eregion.Workload.Model.{ResolvedWorkloadSpec}
use eregion.Reconciler.Manager.{
  Manager, low, high, first_desired, min_ready_of, new_pool, ensure_found, ensure, get,
}

-- A pool before its start, for a workload.
pub record IsFresh (spec : ResolvedWorkloadSpec) (p : Pool) : Type 0 where
  pub no_slots : p.slots ≡ []
  pub desired : p.desired ≡ low spec
  pub bounds : (p.min_w ≡ low spec) × (p.min_w ≤ p.max_w) × (p.desired ≤ p.max_w)
  pub top : 0 < high spec → p.max_w ≡ high spec
  pub ready : p.min_ready ≤ p.desired
  pub room : (0 < p.channel_cap) × (p.max_w ≤ p.channel_cap)

first_desired-low :
    (spec : ResolvedWorkloadSpec) → low spec ≤ high spec → first_desired spec ≡ low spec
unfolding first_desired
first_desired-low spec h = ground arith

min_ready_of-le :
    (m : Manager) (spec : ResolvedWorkloadSpec) → min_ready_of m spec ≤ first_desired spec
min_ready_of-le m spec = ground arith

made-IsFresh :
    (m : Manager) (spec : ResolvedWorkloadSpec)
    → low spec ≤ high spec
    → IsFresh spec (new_pool m spec)
unfolding new_pool new_workload_pool
made-IsFresh m spec h =
    let e = first_desired-low spec h in
    let l = min_ready_of-le m spec in
    record {
      no_slots = refl;
      desired = ground (arith, e);
      bounds = (refl, ground (arith, e), ground (arith, e));
      top = λ k. ground (arith, e);
      ready = ground (arith, e, l);
      room = (ground (arith, e), ground (arith, e));
    }

-- What `Ensure` comes to: the pool is the one registered, and other names keep theirs; a pool that
-- was there stays as it is, and one that was not is fresh.
abbrev pub Ensured : Manager → ResolvedWorkloadSpec → String → Manager × Pool → Type 0
Ensured m spec other x =
    (get x.0 spec.name ≡ some x.1)
    × (get x.0 other ≡ get m other)
    × (((get m spec.name ≡ some x.1) × (x.0 ≡ m)) ⊎ ((get m spec.name ≡ none) × IsFresh spec x.1))

ensure_found-Ensured :
    (m : Manager) (spec : ResolvedWorkloadSpec) (other : String) (o : Option Pool)
    → low spec ≤ high spec
    → spec.name ≢ other
    → get m spec.name ≡ o
    → Ensured m spec other (ensure_found m spec o)
unfolding get
ensure_found-Ensured m spec other (some p) h n e = (e, refl, inl (e, refl))
ensure_found-Ensured m spec other none h n e = (
  lookup-insert_self m.pools spec.name (new_pool m spec),
  lookup-insert_ne m.pools (new_pool m spec) n,
  inr (e, made-IsFresh m spec h),
)

-- For a workload whose bounds are in order: `Ensure` returns the pool registered under the workload's
-- name, and other names keep theirs. A pool that was there stays as it is. One that was not has no
-- slots and wants the minimum of workers, which its bounds and its channel have room for and which
-- is no less than the number it waits to be ready.
pub ensure-Ensured :
    (m : Manager) (spec : ResolvedWorkloadSpec) (other : String)
    → low spec ≤ high spec
    → spec.name ≢ other
    → Ensured m spec other (ensure m spec)
unfolding ensure get
ensure-Ensured m spec other h n =
    ensure_found-Ensured m spec other (lookup m.pools spec.name) h n refl
