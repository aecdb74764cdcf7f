-- ===== src/Reconciler/Examples.antt =====
-- The manager and a pass of the reconciler at concrete inputs.
use eregion.Prelude.{ℕ, ◌*◌, ◌/◌, ◌≡◌, ◌⊎◌, refl, true, false, none, [], ◌∷◌, leb, ltb, arith}
use eregion.Prelude.Int.{pos, pos_part}
use eregion.Prelude.Maps.{str_eq→ne}
use eregion.Worker.Types.{http, Config, new_workload_pool}
use eregion.Workload.Model.{ResolvedWorkloadSpec, default_scaling, default_resources}
use eregion.Scaling.Floats.{Floats, Runtime}
use eregion.Reconciler.Manager.{Manager, ensure, get}
use eregion.Reconciler.Fresh.{Ensured, ensure-Ensured}
use eregion.Reconciler.Pass.{Reconciler, is_wanted, reconcile_once}
use eregion.Reconciler.Follows.{HasPool, reconcile_once-follows}

abbrev cfg : Config
cfg = record {
  max_requests = 100;
  memory_limit_mb = 256;
  restart_limit = 2;
  restart_window = 100;
  queue_capacity = 16;
}

abbrev mails : ResolvedWorkloadSpec
mails = record {
  name = "mails";
  template = "";
  mode = "consumer";
  command = "php" ∷ [];
  queue = record { transport = ""; name = "" };
  workers = record { min = pos 2; max = pos 4 };
  resources = default_resources;
  scaling = default_scaling;
}

-- A pool for web requests is there, and none for mails.
abbrev manager : Manager
manager = record {
  cfg = cfg;
  min_ready = 1;
  pools = ("http", new_workload_pool http cfg 1 1 1 1) ∷ [];
}

ensure-Ensured_example : Ensured manager mails "http" (ensure manager mails)
ensure-Ensured_example =
    ensure-Ensured manager mails "http" (omega arith)
      (λ e. str_eq→ne {s = "mails"} {t = "http"} refl e)

-- Whole numbers in place of float64.
abbrev whole : Floats
whole = record {
  F = ℕ;
  of_int = pos_part;
  mul = λ a b. a * b;
  div = λ a b. a / b;
  is_nonpositive = λ a. leb a 0;
  is_positive = λ a. ltb 0 a;
  ceil_int = pos;
  seconds_of = λ d. pos_part d / 1_000_000_000;
}

abbrev host : Runtime ℕ
host = record {
  logical_cpus = pos 8;
  available_cpus = 8;
  memory_limit_bytes = 0;
  memory_limit_known = false;
}

abbrev reconciler : Reconciler
reconciler = record { manager = manager; hysteresis = [] }

reconcile_once-follows_example :
    let m = (reconcile_once whole none host 5 reconciler (mails ∷ [])).manager in
    ((is_wanted (mails ∷ []) "http" ≡ true) × HasPool m "http")
    ⊎ ((is_wanted (mails ∷ []) "http" ≡ false) × (get m "http" ≡ none))
reconcile_once-follows_example =
    reconcile_once-follows whole none host 5 reconciler (mails ∷ []) "http"
