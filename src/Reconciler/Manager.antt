-- ===== src/Reconciler/Manager.antt =====
-- internal/worker/manager.go: `Ensure`, `Get` and `Remove`. The bounds of a resolved workload are
-- non-negative, so a pool takes them as ℕ.
use text.Mathlib.Text.{◌==◌ as str_eq}
use eregion.Prelude.{ℕ, Bool, ◌&&◌, Option, none, some, List, if◌then◌else◌, ltb, ◌==◌, String}
use eregion.Prelude.Int.{pos_part, pos, ltb_ℤ}
use eregion.Prelude.Maps.{lookup, insert, delete}
use eregion.Worker.Types.{Mode, http, consumer, Config, Pool, new_workload_pool}
use eregion.Worker.Shutdown.{shutdown}
use eregion.Workload.Model.{ResolvedWorkloadSpec}

pub record Manager : Type 0 where
  pub cfg : Config
  pub min_ready : ℕ
  pub pools : List (String × Pool)

abbrev pub mode_of : ResolvedWorkloadSpec → Mode
mode_of spec = if str_eq spec.mode "http" then http else consumer

abbrev pub low : ResolvedWorkloadSpec → ℕ
low spec = pos_part spec.workers.min

abbrev pub high : ResolvedWorkloadSpec → ℕ
high spec = pos_part spec.workers.max

abbrev pub is_fixed_size : ResolvedWorkloadSpec → Bool
is_fixed_size spec = str_eq spec.scaling.strategy "fixed" && (low spec == high spec)

-- The number of workers that a pool starts with, by the code's three tests.
unfoldable pub first_desired : ResolvedWorkloadSpec → ℕ
first_desired spec =
    let a =
      (if (low spec == 0) && (is_fixed_size spec && ltb 0 (high spec))
        then high spec
        else low spec) in
    let b = (if is_fixed_size spec then high spec else a) in
    if ltb b (low spec) then low spec else b

abbrev pub min_ready_of : Manager → ResolvedWorkloadSpec → ℕ
min_ready_of m spec =
    if str_eq spec.mode "http"
    then (if ltb (first_desired spec) m.min_ready then first_desired spec else m.min_ready)
    else 0

abbrev pub config_of : Manager → ResolvedWorkloadSpec → Config
config_of m spec =
    if ltb_ℤ (pos 0) spec.resources.memory_mb
    then record m.cfg { memory_limit_mb = pos_part spec.resources.memory_mb }
    else m.cfg

unfoldable pub new_pool : Manager → ResolvedWorkloadSpec → Pool
unfolding first_desired new_workload_pool
new_pool m spec =
    new_workload_pool (mode_of spec) (config_of m spec) (first_desired spec) (low spec) (high spec)
      (min_ready_of m spec)

abbrev pub ensure_found : Manager → ResolvedWorkloadSpec → Option Pool → Manager × Pool
ensure_found m spec (some p) = (m, p)
ensure_found m spec none =
    (record m { pools = insert m.pools spec.name (new_pool m spec) }, new_pool m spec)

-- The pool of the workload, and the manager with it.
unfoldable pub ensure : Manager → ResolvedWorkloadSpec → Manager × Pool
unfolding new_pool
ensure m spec = ensure_found m spec (lookup m.pools spec.name)

unfoldable pub get : Manager → String → Option Pool
get m name = lookup m.pools name

abbrev pub shut_if : Option Pool → Option Pool
shut_if none = none
shut_if (some p) = some (shutdown p)

-- The manager without the pool, and the pool as its shutdown leaves it.
unfoldable pub remove : Manager → String → Manager × Option Pool
remove m name = (record m { pools = delete m.pools name }, shut_if (lookup m.pools name))
