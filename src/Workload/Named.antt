-- ===== src/Workload/Named.antt =====
-- The workloads that a configuration yields.
use text.Mathlib.Text.{◌==◌ as str_eq}
use eregion.Prelude.{
  ◌<◌, arith, ◌≡◌, ◌≢◌, refl, sym, ap, ◌∙◌, true, false, List, [], ◌∷◌, ◌++◌, All, length, String,
  Bool-cases, inl, inr,
}
use mathlib.Core.Path.{subst}
use eregion.Prelude.Maps.{str_eq→ne}
use eregion.Prelude.Results.{Result, ok, fail, ok_eq, ok_ne_fail, Result-cases}
use eregion.Workload.Model.{WorkloadSpec, WorkloadTemplate, ResolvedWorkloadSpec}
use eregion.Workload.Resolve.{resolve}
use eregion.Workload.Build.{
  BuildError, LegacyHttpInput, is_seen, add_specs, not_empty, with_legacy, build_from_config,
}

-- No two workloads have the same name.
pub data IsUnique : List ResolvedWorkloadSpec → Type 0 where
  none_yet : IsUnique []
  one_more :
      {rs : List ResolvedWorkloadSpec} (r : ResolvedWorkloadSpec)
      → IsUnique rs
      → All (λ s. s.name ≢ r.name) rs
      → IsUnique (rs ++ (r ∷ []))

-- The specifications and what they resolve to, one by one.
pub data Matches (templates : List (String × WorkloadTemplate))
    : List WorkloadSpec → List ResolvedWorkloadSpec → Type 0 where
  no_more : Matches templates [] []
  match :
      {specs : List WorkloadSpec} {rs : List ResolvedWorkloadSpec} {spec : WorkloadSpec}
      {r : ResolvedWorkloadSpec}
      → resolve spec templates ≡ ok r
      → Matches templates specs rs
      → Matches templates (spec ∷ specs) (r ∷ rs)

unseen :
    (rs : List ResolvedWorkloadSpec) (name : String)
    → is_seen rs name ≡ false
    → All (λ s. s.name ≢ name) rs
unseen [] name h = tt
unseen (r ∷ rs) name h = elim (Bool-cases (str_eq r.name name)) [
  | inl e ↦ absurd (cc (h, e))
  | inr e ↦ (str_eq→ne e, unseen rs name (rw e at h))
]

append_one :
    (xs ys : List ResolvedWorkloadSpec) (x : ResolvedWorkloadSpec)
    → (xs ++ (x ∷ [])) ++ ys ≡ xs ++ (x ∷ ys)
append_one [] ys x = refl
append_one (z ∷ xs) ys x = ap (λ l. z ∷ l) (append_one xs ys x)

append_nil : (xs : List ResolvedWorkloadSpec) → xs ++ [] ≡ xs
append_nil [] = refl
append_nil (x ∷ xs) = ap (λ l. x ∷ l) (append_nil xs)

add_specs-IsUnique :
    (templates : List (String × WorkloadTemplate)) (before : List ResolvedWorkloadSpec)
    (specs : List WorkloadSpec) (out : List ResolvedWorkloadSpec)
    → IsUnique before
    → add_specs templates before specs ≡ ok out
    → IsUnique out
      × ((rs : List ResolvedWorkloadSpec) × (out ≡ before ++ rs) × Matches templates specs rs)
unfolding add_specs
add_specs-IsUnique templates before [] out u h =
    (subst IsUnique (ok_eq h) u, ([], sym (ok_eq h) ∙ sym (append_nil before), no_more))
add_specs-IsUnique templates before (spec ∷ specs) out u h =
    elim (Result-cases (resolve spec templates)) [
      | inr (e, f) ↦ absurd (cc (h, f))
      | inl (r, f) ↦ elim (Bool-cases (is_seen before r.name)) [
        | inl g ↦ absurd (cc (h, f, g))
        | inr g ↦
            let (v, (rs, e, ms)) =
              add_specs-IsUnique templates (before ++ (r ∷ [])) specs out
                (one_more r u (unseen before r.name g)) (cc (h, f, g)) in
            (v, (r ∷ rs, e ∙ append_one before rs r, match f ms))
      ]
    ]

not_empty-ok :
    (r : Result BuildError (List ResolvedWorkloadSpec)) (out : List ResolvedWorkloadSpec)
    → not_empty r ≡ ok out
    → (r ≡ ok out) × (0 < length out)
not_empty-ok (fail e) out h = absurd (ok_ne_fail (sym h))
not_empty-ok (ok []) out h = absurd (ok_ne_fail (sym h))
not_empty-ok (ok (r ∷ rs)) out h = (h, subst (λ l. 0 < length l) (ok_eq h) (omega arith))

explicit-ok :
    (legacy : LegacyHttpInput) (r : Result BuildError (List ResolvedWorkloadSpec))
    (out : List ResolvedWorkloadSpec)
    → with_legacy legacy true r ≡ ok out
    → r ≡ ok out
explicit-ok legacy (fail e) out h = h
explicit-ok legacy (ok rs) out h = h

-- Where the configuration lists its workloads: what is built is not empty, no two workloads have the
-- same name, and they are what the listed ones resolve to, each in its place.
pub build_from_config-IsUnique :
    (templates : List (String × WorkloadTemplate)) (specs : List WorkloadSpec)
    (legacy : LegacyHttpInput) (out : List ResolvedWorkloadSpec)
    → build_from_config templates specs legacy true ≡ ok out
    → (0 < length out) × IsUnique out × Matches templates specs out
unfolding build_from_config
build_from_config-IsUnique templates specs legacy out h =
    let (e, some_workload) =
      not_empty-ok (with_legacy legacy true (add_specs templates [] specs)) out h in
    let (u, (rs, same, ms)) =
      add_specs-IsUnique templates [] specs out none_yet
        (explicit-ok legacy (add_specs templates [] specs) out e) in
    (some_workload, u, subst (Matches templates specs) (sym same) ms)
