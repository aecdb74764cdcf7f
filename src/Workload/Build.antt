-- ===== src/Workload/Build.antt =====
-- internal/workload/build.go and adapter.go: all workloads of a configuration.
use text.Mathlib.Text.{◌==◌ as str_eq}
use eregion.Prelude.{Bool, true, false, ◌||◌, List, [], ◌∷◌, ◌++◌, if◌then◌else◌, any, String}
use eregion.Prelude.Int.{ℤ, pos, ltb_ℤ}
use eregion.Prelude.Results.{Result, ok, fail}
use eregion.Workload.Model.{WorkloadSpec, WorkloadTemplate, ResolvedWorkloadSpec, default_scaling}
use eregion.Workload.Resolve.{ResolveError, or_text, resolve}
use eregion.Prelude.Texts.{is_empty}

pub record LegacyHttpInput : Type 0 where
  pub name : String
  pub php_binary : String
  pub worker_script : String
  pub worker_count : ℤ
  pub memory_limit_mb : ℤ

pub data BuildError : Type 0 where
  unresolved : ResolveError → BuildError
  duplicate_name : String → BuildError
  count_below_one php_required no_workloads : BuildError

unfoldable pub adapt_legacy_http : LegacyHttpInput → Result BuildError ResolvedWorkloadSpec
adapt_legacy_http in' =
    if ltb_ℤ in'.worker_count (pos 1)
    then fail count_below_one
    else if is_empty in'.php_binary || is_empty in'.worker_script
    then fail php_required
    else ok (record {
      name = or_text in'.name "http";
      template = "";
      mode = "http";
      command = in'.php_binary ∷ in'.worker_script ∷ [];
      queue = record { transport = ""; name = "" };
      workers = record { min = in'.worker_count; max = in'.worker_count };
      resources = record { class' = "balanced"; memory_mb = in'.memory_limit_mb };
      scaling = default_scaling;
    })

-- Whether a workload of this name is there already.
abbrev pub is_seen : List ResolvedWorkloadSpec → String → Bool
is_seen resolved name = any (λ r. str_eq r.name name) resolved

-- The loop: `resolved` holds the workloads so far, whose names are those seen.
unfoldable pub add_specs :
    List (String × WorkloadTemplate)
    → List ResolvedWorkloadSpec
    → List WorkloadSpec
    → Result BuildError (List ResolvedWorkloadSpec)
add_specs templates resolved [] = ok resolved
add_specs templates resolved (spec ∷ specs) = elim (resolve spec templates) [
  | fail e ↦ fail (unresolved e)
  | ok r ↦
      let rest = add_specs templates (resolved ++ (r ∷ [])) specs in
      if is_seen resolved r.name then fail (duplicate_name r.name) else rest
]

abbrev pub add_legacy :
    List ResolvedWorkloadSpec
    → Result BuildError ResolvedWorkloadSpec
    → Result BuildError (List ResolvedWorkloadSpec)
add_legacy resolved (fail e) = fail e
add_legacy resolved (ok http) = ok (resolved ++ (http ∷ []))

abbrev pub not_empty :
    Result BuildError (List ResolvedWorkloadSpec) → Result BuildError (List ResolvedWorkloadSpec)
not_empty (fail e) = fail e
not_empty (ok []) = fail no_workloads
not_empty (ok (r ∷ rs)) = ok (r ∷ rs)

abbrev pub with_legacy :
    LegacyHttpInput
    → Bool
    → Result BuildError (List ResolvedWorkloadSpec)
    → Result BuildError (List ResolvedWorkloadSpec)
with_legacy legacy explicit (fail e) = fail e
with_legacy legacy true (ok resolved) = ok resolved
with_legacy legacy false (ok resolved) = add_legacy resolved (adapt_legacy_http legacy)

unfoldable pub build_from_config :
    List (String × WorkloadTemplate)
    → List WorkloadSpec
    → LegacyHttpInput
    → Bool
    → Result BuildError (List ResolvedWorkloadSpec)
unfolding add_specs adapt_legacy_http
build_from_config templates specs legacy explicit =
    not_empty (with_legacy legacy explicit (add_specs templates [] specs))
