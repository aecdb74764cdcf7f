-- ===== src/Worker/Environment/Examples.antt =====
-- Environments at concrete lines.
use eregion.Prelude.{or_else, ◌≡◌, ◌≢◌, refl, List, [], ◌∷◌, String}
use eregion.Prelude.Maps.{lookup, str_eq→ne}
use eregion.Prelude.Texts.{cut}
use eregion.Worker.Environment.{
  env_workload, env_worker_id, env_generation, merge_environment, inject_consumer_metadata,
}
use eregion.Worker.Environment.Merged.{
  IsOverrides, value, Finds, merge_environment-overrides, inject_consumer_metadata-Finds,
}

abbrev inherited : List String
inherited = "PATH=/bin" ∷ "TZ=UTC" ∷ "TZ=CET" ∷ "EREGION_WORKER_ID=old" ∷ []

abbrev configured : List (String × String)
configured = ("PATH", "/usr/bin") ∷ ("EREGION_WORKLOAD", "mine") ∷ []

configured-IsOverrides : IsOverrides configured
unfolding cut
configured-IsOverrides =
    (refl, (str_eq→ne {s = "EREGION_WORKLOAD"} {t = "PATH"} refl, tt), (refl, tt, tt))

-- A key that the inherited environment repeats is still repeated.
merged :
    merge_environment inherited configured
    ≡ "TZ=UTC" ∷ "TZ=CET" ∷ "EREGION_WORKER_ID=old" ∷ "PATH=/usr/bin" ∷ "EREGION_WORKLOAD=mine" ∷ []
unfolding merge_environment cut lookup
merged = refl

merge_environment-overrides_example :
    value (merge_environment inherited configured)
    ≡ (λ k. or_else (lookup configured k) (value inherited k))
merge_environment-overrides_example =
    merge_environment-overrides inherited configured configured-IsOverrides

inject_consumer_metadata-Finds_example :
    let seen =
      merge_environment inherited
        (inject_consumer_metadata (λ _. "7") configured "mails" "mails-1" 7) in
    Finds seen env_workload "mails"
    × Finds seen env_worker_id "mails-1"
    × Finds seen env_generation "7"
    × ((k : String)
        → env_workload ≢ k
        → env_worker_id ≢ k
        → env_generation ≢ k
        → value seen k ≡ value (merge_environment inherited configured) k)
inject_consumer_metadata-Finds_example =
    inject_consumer_metadata-Finds (λ _. "7") inherited configured "mails" "mails-1" 7
      configured-IsOverrides
