-- ===== src/Worker/Environment.antt =====
-- internal/worker/env.go: the environment of a worker's process, as lines `KEY=value`. A map is the list of
-- its entries, each key once, in the order in which Go visits them.
pub mod Merged
mod Examples
use Prim.Native.String
use eregion.Prelude.{
  is_given, ℕ, Bool, true, false, Option, none, some, List, [], ◌∷◌, ◌++◌, String, if◌then◌else◌,
}
use eregion.Prelude.Maps.{lookup, insert}
use eregion.Prelude.Texts.{cut}

abbrev pub env_workload : String
env_workload = "EREGION_WORKLOAD"

abbrev pub env_worker_id : String
env_worker_id = "EREGION_WORKER_ID"

abbrev pub env_generation : String
env_generation = "EREGION_GENERATION"

abbrev pub is_dropped : List (String × String) → Option (String × String) → Bool
is_dropped overrides none = false
is_dropped overrides (some (key, _)) = is_given (lookup overrides key)

unfoldable pub keep_base : List (String × String) → List String → List String
keep_base overrides [] = []
keep_base overrides (e ∷ es) =
    let rest = keep_base overrides es in
    if is_dropped overrides (cut b'=' e) then rest else e ∷ rest

unfoldable pub added : List (String × String) → List String
added [] = []
added ((k, v) ∷ overrides) = String.◌++◌ k (String.◌∷◌ "=" v) ∷ added overrides

unfoldable pub merge_environment : List String → List (String × String) → List String
unfolding keep_base added
merge_environment base [] = base
merge_environment base (o ∷ os) = keep_base (o ∷ os) base ++ added (o ∷ os)

-- `format` is `strconv.FormatUint`.
module _ (format : ℕ → String) where
  unfoldable pub inject_consumer_metadata :
      List (String × String) → String → String → ℕ → List (String × String)
  inject_consumer_metadata env workload worker_id generation =
      insert (insert (insert env env_workload workload) env_worker_id worker_id) env_generation
        (format generation)
