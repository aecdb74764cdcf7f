-- ===== src/Workload/Registry.antt =====
-- internal/workload/registry.go: the workloads by name. `none` is a nil error.
use eregion.Prelude.{
  ◌≡◌, ◌≢◌, refl, Option, none, some, List, if◌then◌else◌, String, Bool-cases, inl, inr, ◌⊎◌,
}
use eregion.Prelude.Maps.{
  lookup, insert, delete, lookup-insert_self, lookup-insert_ne, lookup-delete_self,
  lookup-delete_ne, str_eq→eq, str_eq→ne,
}
use eregion.Workload.Model.{ResolvedWorkloadSpec}
use eregion.Prelude.Texts.{is_empty}

pub data RegistryError : Type 0 where
  name_missing : RegistryError
  not_found : String → RegistryError

abbrev pub Registry : Type 0
Registry = List (String × ResolvedWorkloadSpec)

unfoldable pub upsert : Registry → ResolvedWorkloadSpec → Registry × Option RegistryError
upsert r spec =
    if is_empty spec.name then (r, some name_missing) else (insert r spec.name spec, none)

abbrev pub update_found :
    Registry → ResolvedWorkloadSpec → Option ResolvedWorkloadSpec → Registry × Option RegistryError
update_found r spec none = (r, some (not_found spec.name))
update_found r spec (some _) = (insert r spec.name spec, none)

abbrev pub remove_found :
    Registry → String → Option ResolvedWorkloadSpec → Registry × Option RegistryError
remove_found r name none = (r, some (not_found name))
remove_found r name (some _) = (delete r name, none)

unfoldable pub update : Registry → ResolvedWorkloadSpec → Registry × Option RegistryError
update r spec =
    if is_empty spec.name then (r, some name_missing) else update_found r spec (lookup r spec.name)

unfoldable pub remove : Registry → String → Registry × Option RegistryError
remove r name = remove_found r name (lookup r name)

unfoldable pub get : Registry → String → Option ResolvedWorkloadSpec
get r name = lookup r name

-- The calls that change the registry.
pub data Call : Type 0 where
  upserts updates : ResolvedWorkloadSpec → Call
  removes : String → Call

unfoldable pub apply_call : Registry → Call → Registry × Option RegistryError
unfolding upsert update remove
apply_call r (upserts spec) = upsert r spec
apply_call r (updates spec) = update r spec
apply_call r (removes name) = remove r name

-- The name that a call is about.
abbrev pub subject : Call → String
subject (upserts spec) = spec.name
subject (updates spec) = spec.name
subject (removes name) = name

-- Why a call is turned down.
abbrev pub Refuses : Registry → Call → RegistryError → Type 0
Refuses r (upserts spec) e = (spec.name ≡ "") × (e ≡ name_missing)
Refuses r (updates spec) e =
    (spec.name ≡ "") × (e ≡ name_missing)
    ⊎ (spec.name ≢ "") × (get r spec.name ≡ none) × (e ≡ not_found spec.name)
Refuses r (removes name) e = (get r name ≡ none) × (e ≡ not_found name)

abbrev pub IsRegistered : Registry → String → Type 0
IsRegistered r name = (old : ResolvedWorkloadSpec) × (get r name ≡ some old)

-- What a call needs.
abbrev pub Accepts : Registry → Call → Type 0
Accepts r (upserts spec) = spec.name ≢ ""
Accepts r (updates spec) = (spec.name ≢ "") × IsRegistered r spec.name
Accepts r (removes name) = IsRegistered r name

-- What is registered under the call's name when it succeeds.
abbrev pub outcome : Call → Option ResolvedWorkloadSpec
outcome (upserts spec) = some spec
outcome (updates spec) = some spec
outcome (removes name) = none

-- What a call comes to, for its effect on another name.
abbrev pub Effect : Registry → Call → String → Registry × Option RegistryError → Type 0
Effect r c other x =
    ((e : RegistryError) × Refuses r c e × (x.1 ≡ some e) × (x.0 ≡ r))
    ⊎ Accepts r c × (x.1 ≡ none) × (get x.0 (subject c) ≡ outcome c) × (get x.0 other ≡ get r other)

update_found-Effect :
    (r : Registry) (spec : ResolvedWorkloadSpec) (other : String) (o : Option ResolvedWorkloadSpec)
    → spec.name ≢ other
    → spec.name ≢ ""
    → lookup r spec.name ≡ o
    → Effect r (updates spec) other (update_found r spec o)
unfolding get
update_found-Effect r spec other none h n l =
    inl (not_found spec.name, inr (n, l, refl), refl, refl)
update_found-Effect r spec other (some s) h n l =
    inr ((n, (s, l)), refl, lookup-insert_self r spec.name spec, lookup-insert_ne r spec h)

remove_found-Effect :
    (r : Registry) (name other : String) (o : Option ResolvedWorkloadSpec)
    → name ≢ other
    → lookup r name ≡ o
    → Effect r (removes name) other (remove_found r name o)
unfolding get
remove_found-Effect r name other none h l = inl (not_found name, (l, refl), refl, refl)
remove_found-Effect r name other (some s) h l =
    inr ((s, l), refl, lookup-delete_self r name, lookup-delete_ne r h)

-- A call of `Upsert`, `Update` or `Remove` fails just where its name is empty (`Upsert` and `Update`)
-- or not registered (`Update` and `Remove`), with the error that says so, and then changes nothing.
-- Any other succeeds: it leaves every other name as it was, and under its own name the specification
-- given, or none after a removal.
pub apply_call-get :
    (r : Registry) (c : Call) (other : String)
    → subject c ≢ other
    → let x = apply_call r c in
      ((e : RegistryError) × Refuses r c e × (x.1 ≡ some e) × (x.0 ≡ r))
      ⊎ Accepts r c
        × (x.1 ≡ none)
        × (get x.0 (subject c) ≡ outcome c)
        × (get x.0 other ≡ get r other)
unfolding apply_call get
apply_call-get r (upserts spec) other h = elim (Bool-cases (is_empty spec.name)) [
  | inl e ↦ rw e (inl (name_missing, (str_eq→eq e, refl), refl, refl))
  | inr e ↦
      rw e (inr (str_eq→ne e, refl, lookup-insert_self r spec.name spec, lookup-insert_ne r spec h))
]
apply_call-get r (updates spec) other h = elim (Bool-cases (is_empty spec.name)) [
  | inl e ↦ rw e (inl (name_missing, inl (str_eq→eq e, refl), refl, refl))
  | inr e ↦ rw e (update_found-Effect r spec other (lookup r spec.name) h (str_eq→ne e) refl)
]
apply_call-get r (removes name) other h = remove_found-Effect r name other (lookup r name) h refl
