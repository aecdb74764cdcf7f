-- ===== src/Reconciler/Follows.antt =====
-- After a pass the pools are those of the registry.
use text.Mathlib.Text.{◌==◌ as str_eq}
use mathlib.Core.Path.{subst}
use eregion.Prelude.{
  ℕ, ◌≡◌, refl, ap, ◌∙◌, Bool, true, false, Option, none, some, List, [], ◌∷◌, String, any, inl,
  inr, ◌⊎◌, Bool-cases,
}
use eregion.Prelude.Maps.{
  lookup, insert, delete, lookup-insert_self, lookup-insert_ne, lookup-delete_self,
  lookup-delete_ne, str_eq→eq, str_eq→ne,
}
use eregion.Worker.Types.{Pool}
use eregion.Workload.Model.{ResolvedWorkloadSpec}
use eregion.Scaling.Floats.{Floats, Runtime}
use eregion.Scaling.Strategy.{Provider}
use eregion.Reconciler.Manager.{Manager, ensure_found, ensure, remove, get, new_pool}
use eregion.Reconciler.Pass.{
  Reconciler, set_target, reconcile_specs, is_wanted, remove_unwanted, keys, reconcile_once,
  drop_pool, aim, damp,
}

-- A pool is registered under the name.
abbrev pub HasPool : Manager → String → Type 0
HasPool m name = (p : Pool) × (get m name ≡ some p)

insert-HasPool :
    (pools : List (String × Pool)) (k name : String) (v : Pool)
    → ((p : Pool) × (lookup pools name ≡ some p)) ⊎ (str_eq k name ≡ true)
    → (p : Pool) × (lookup (insert pools k v) name ≡ some p)
insert-HasPool pools k name v h = elim (Bool-cases (str_eq k name)) [
  | inl e ↦
      subst (λ n. (p : Pool) × (lookup (insert pools k v) n ≡ some p)) (str_eq→eq e)
        (v, lookup-insert_self pools k v)
  | inr e ↦ elim h [
    | inl (p, f) ↦ (p, lookup-insert_ne pools v (str_eq→ne e) ∙ f)
    | inr f ↦ absurd (cc (e, f))
  ]
]

ensure_found-HasPool :
    (m : Manager) (spec : ResolvedWorkloadSpec) (name : String) (o : Option Pool)
    → HasPool m name
    → HasPool (ensure_found m spec o).0 name
unfolding get
ensure_found-HasPool m spec name (some p) h = h
ensure_found-HasPool m spec name none h =
    insert-HasPool m.pools spec.name name (new_pool m spec) (inl h)

module _ (fl : Floats) (provider : Option Provider) (runtime : Runtime fl.F) (now : ℕ) where
  set_target-HasPool :
      (r : Reconciler) (spec : ResolvedWorkloadSpec) (x : Manager × Pool) (name : String)
      → HasPool x.0 name ⊎ (str_eq spec.name name ≡ true)
      → HasPool (set_target fl provider runtime now r spec x).manager name
  unfolding set_target get
  set_target-HasPool r spec (m, p) name h =
      insert-HasPool m.pools spec.name name (aim p (damp fl provider runtime now r spec p).1) h

  reconcile_specs-HasPool :
      (r : Reconciler) (specs : List ResolvedWorkloadSpec) (name : String)
      → HasPool r.manager name ⊎ (is_wanted specs name ≡ true)
      → HasPool (reconcile_specs fl provider runtime now r specs).manager name
  unfolding reconcile_specs ensure
  reconcile_specs-HasPool r [] name (inl h) = h
  reconcile_specs-HasPool r [] name (inr h) = absurd (cc h)
  reconcile_specs-HasPool r (spec ∷ specs) name h =
      let x = ensure r.manager spec in
      reconcile_specs-HasPool (set_target fl provider runtime now r spec x) specs name
        (elim (Bool-cases (str_eq spec.name name)) [
          | inl e ↦ inl (set_target-HasPool r spec x name (inr e))
          | inr e ↦ elim h [
            | inl k ↦ inl (
                set_target-HasPool r spec x name (
                  inl (
                    ensure_found-HasPool r.manager spec name (lookup r.manager.pools spec.name) k)))
            | inr k ↦ inr (rw e at k)
          ]
        ])

drop_pool-wanted :
    (specs : List ResolvedWorkloadSpec) (b : Bool) (r : Reconciler) (k name : String)
    → is_wanted specs k ≡ b
    → is_wanted specs name ≡ true
    → get (drop_pool b r k).manager name ≡ get r.manager name
unfolding remove get
drop_pool-wanted specs true r k name e h = refl
drop_pool-wanted specs false r k name e h =
    lookup-delete_ne r.manager.pools (λ f. cc (h, e, ap (is_wanted specs) f))

-- The wanted pools stay.
remove_unwanted-wanted :
    (specs : List ResolvedWorkloadSpec) (r : Reconciler) (names : List String) (name : String)
    → is_wanted specs name ≡ true
    → get (remove_unwanted specs r names).manager name ≡ get r.manager name
unfolding remove_unwanted
remove_unwanted-wanted specs r [] name h = refl
remove_unwanted-wanted specs r (k ∷ ks) name h =
    remove_unwanted-wanted specs (drop_pool (is_wanted specs k) r k) ks name h
    ∙ drop_pool-wanted specs (is_wanted specs k) r k name refl h

-- The name is in the list.
abbrev listed : List String → String → Bool
listed names name = any (λ k. str_eq k name) names

delete-none :
    (pools : List (String × Pool)) (k name : String)
    → (lookup pools name ≡ none) ⊎ (str_eq k name ≡ true)
    → lookup (delete pools k) name ≡ none
delete-none pools k name h = elim (Bool-cases (str_eq k name)) [
  | inl e ↦ subst (λ n. lookup (delete pools k) n ≡ none) (str_eq→eq e) (lookup-delete_self pools k)
  | inr e ↦ elim h [ inl f ↦ lookup-delete_ne pools (str_eq→ne e) ∙ f | inr f ↦ absurd (cc (e, f)) ]
]

drop_pool-none :
    (specs : List ResolvedWorkloadSpec) (b : Bool) (r : Reconciler) (k name : String)
    → is_wanted specs k ≡ b
    → is_wanted specs name ≡ false
    → (get r.manager name ≡ none) ⊎ (str_eq k name ≡ true)
    → get (drop_pool b r k).manager name ≡ none
unfolding remove get
drop_pool-none specs true r k name e h (inl f) = f
drop_pool-none specs true r k name e h (inr f) =
    absurd (cc (h, e, ap (is_wanted specs) (str_eq→eq f)))
drop_pool-none specs false r k name e h f = delete-none r.manager.pools k name f

-- The others go, if they are listed.
remove_unwanted-none :
    (specs : List ResolvedWorkloadSpec) (r : Reconciler) (names : List String) (name : String)
    → is_wanted specs name ≡ false
    → (get r.manager name ≡ none) ⊎ (listed names name ≡ true)
    → get (remove_unwanted specs r names).manager name ≡ none
unfolding remove_unwanted
remove_unwanted-none specs r [] name h (inl f) = f
remove_unwanted-none specs r [] name h (inr f) = absurd (cc f)
remove_unwanted-none specs r (k ∷ ks) name h f =
    let b = is_wanted specs k in
    remove_unwanted-none specs (drop_pool b r k) ks name h (elim (Bool-cases (str_eq k name)) [
      | inl e ↦ inl (drop_pool-none specs b r k name refl h (inr e))
      | inr e ↦ elim f [
        | inl g ↦ inl (drop_pool-none specs b r k name refl h (inl g))
        | inr g ↦ inr (rw e at g)
      ]
    ])

keys-listed :
    (pools : List (String × Pool)) (name : String)
    → (lookup pools name ≡ none) ⊎ (listed (keys pools) name ≡ true)
unfolding lookup
keys-listed [] name = inl refl
keys-listed ((k, p) ∷ pools) name = elim (Bool-cases (str_eq k name)) [
  | inl e ↦ inr (rw e refl)
  | inr e ↦ rw e (keys-listed pools name)
]

keys-get : (m : Manager) (name : String) → (get m name ≡ none) ⊎ (listed (keys m.pools) name ≡ true)
unfolding get
keys-get m name = keys-listed m.pools name

-- After a pass there is a pool under a name exactly if a workload of the registry has it: pools are
-- made for new workloads, and the pools of workloads that are gone are removed.
pub reconcile_once-follows :
    (fl : Floats) (provider : Option Provider) (runtime : Runtime fl.F) (now : ℕ) (r : Reconciler)
    (specs : List ResolvedWorkloadSpec) (name : String)
    → let m = (reconcile_once fl provider runtime now r specs).manager in
      ((is_wanted specs name ≡ true) × HasPool m name)
      ⊎ ((is_wanted specs name ≡ false) × (get m name ≡ none))
unfolding reconcile_once
reconcile_once-follows fl provider runtime now r specs name =
    let q = reconcile_specs fl provider runtime now r specs in
    elim (Bool-cases (is_wanted specs name)) [
      | inl e ↦
          let (p, f) = reconcile_specs-HasPool fl provider runtime now r specs name (inr e) in
          inl (e, (p, remove_unwanted-wanted specs q (keys q.manager.pools) name e ∙ f))
      | inr e ↦
          inr (
            e,
            remove_unwanted-none specs q (keys q.manager.pools) name e (keys-get q.manager name),
          )
    ]
