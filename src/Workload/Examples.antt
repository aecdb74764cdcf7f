-- ===== src/Workload/Examples.antt =====
-- Workloads resolved at concrete inputs.
use eregion.Prelude.{◌≡◌, ◌<◌, ◌⊎◌, true, length, refl, List, [], ◌∷◌, none, some, String}
use eregion.Prelude.Int.{pos, negsuc}
use eregion.Prelude.Maps.{lookup, str_eq→ne}
use eregion.Prelude.Results.{ok, fail}
use eregion.Workload.Model.{WorkloadSpec, WorkloadTemplate, ResolvedWorkloadSpec, default_scaling}
use eregion.Workload.Resolve.{resolve, max_below_min, unknown_template}
use eregion.Workload.Registry.{
  Registry, RegistryError, Refuses, Accepts, removes, apply_call, get, apply_call-get,
}
use eregion.Workload.Build.{LegacyHttpInput, build_from_config}
use eregion.Workload.Named.{IsUnique, Matches, build_from_config-IsUnique}
use eregion.Workload.Resolved.{IsResolved, resolve-IsResolved}

abbrev templates : List (String × WorkloadTemplate)
templates =
    (
      "batch",
      record {
        name = "batch";
        mode = "consumer";
        workers = record { min = pos 2; max = pos 6 };
        resources = record { class' = ""; memory_mb = pos 128 };
        scaling = record default_scaling { strategy = "backlog"; scale_up_cooldown = negsuc 4 };
      },
    )
    ∷ []

abbrev mails : WorkloadSpec
mails = record {
  name = "mails";
  template = "batch";
  mode = "";
  command = "php" ∷ "mails.php" ∷ [];
  queue = record { transport = "redis"; name = "mails" };
  workers = some (record { min = none; max = some (pos 4) });
  resources = none;
  scaling = none;
}

abbrev resolved : ResolvedWorkloadSpec
resolved = record {
  name = "mails";
  template = "batch";
  mode = "consumer";
  command = "php" ∷ "mails.php" ∷ [];
  queue = record { transport = "redis"; name = "mails" };
  workers = record { min = pos 2; max = pos 4 };
  resources = record { class' = "balanced"; memory_mb = pos 128 };
  scaling = record default_scaling { strategy = "backlog" };
}

resolves : resolve mails templates ≡ ok resolved
unfolding resolve lookup
resolves = refl

resolve-IsResolved_example : IsResolved mails resolved
resolve-IsResolved_example = resolve-IsResolved mails templates resolved resolves

no_template : resolve mails [] ≡ fail (unknown_template "batch")
unfolding resolve lookup
no_template = refl

out_of_order :
    resolve (record mails { workers = some (record { min = none; max = some (pos 1) }) }) templates
    ≡ fail max_below_min
unfolding resolve lookup
out_of_order = refl

abbrev legacy : LegacyHttpInput
legacy = record {
  name = "";
  php_binary = "php";
  worker_script = "worker.php";
  worker_count = pos 2;
  memory_limit_mb = pos 0;
}

builds : build_from_config templates (mails ∷ []) legacy true ≡ ok (resolved ∷ [])
unfolding build_from_config resolve lookup
builds = refl

build_from_config-IsUnique_example :
    (0 < length (resolved ∷ []))
    × IsUnique (resolved ∷ [])
    × Matches templates (mails ∷ []) (resolved ∷ [])
build_from_config-IsUnique_example =
    build_from_config-IsUnique templates (mails ∷ []) legacy (resolved ∷ []) builds

abbrev registry : Registry
registry = ("mails", resolved) ∷ ("http", record resolved { name = "http" }) ∷ []

apply_call-get_example :
    let x = apply_call registry (removes "mails") in
    ((e : RegistryError) × Refuses registry (removes "mails") e × (x.1 ≡ some e) × (x.0 ≡ registry))
    ⊎ Accepts registry (removes "mails")
      × (x.1 ≡ none)
      × (get x.0 "mails" ≡ none)
      × (get x.0 "http" ≡ get registry "http")
apply_call-get_example =
    apply_call-get registry (removes "mails") "http"
      (λ e. str_eq→ne {s = "mails"} {t = "http"} refl e)
