-- ===== src/Worker/Environment/Merged.antt =====
-- What a process finds in the merged environment.
use text.Mathlib.Text.{◌==◌ as str_eq}
use mathlib.Core.Path.{fun_ext, subst}
use eregion.Prelude.{
  is_given, or_else, ℕ, ◌≡◌, ◌≢◌, refl, sym, ◌∙◌, ap, true, Option, none, some, List, [], ◌∷◌, ◌++◌,
  All, String, if◌then◌else◌, inl, inr, Bool-cases, Option-cases,
}
use eregion.Prelude.Maps.{
  lookup, insert, str_eq→eq, str_eq→ne, str_eq_ne, lookup-insert_self, lookup-insert_ne,
}
use eregion.Prelude.Texts.{cut, cut-append}
use eregion.Worker.Environment.{
  env_workload, env_worker_id, env_generation, is_dropped, keep_base, added, merge_environment,
  inject_consumer_metadata,
}

abbrev pub entry : Option (String × String) → String → Option String
entry none k = none
entry (some (j, v)) k = if str_eq j k then some v else none

-- The value of a variable: that of the last line with its key, as os/exec documents for repeated keys.
unfoldable pub value : List String → String → Option String
value [] k = none
value (e ∷ es) k = or_else (value es k) (entry (cut b'=' e) k)

-- Each key once, and none with a `=` in it.
abbrev pub IsOverrides : List (String × String) → Type 0
IsOverrides [] = Unit
IsOverrides ((k, v) ∷ m) = (cut b'=' k ≡ none) × All (λ o. o.0 ≢ k) m × IsOverrides m

or_else_assoc {ℓ} :
    {A : Type ℓ} (a b c : Option A) → or_else (or_else a b) c ≡ or_else a (or_else b c)
or_else_assoc none b c = refl
or_else_assoc (some a) b c = refl

or_else-none {ℓ} : {A : Type ℓ} (a : Option A) → or_else a none ≡ a
or_else-none none = refl
or_else-none (some a) = refl

value-append :
    (xs ys : List String) (k : String) → value (xs ++ ys) k ≡ or_else (value ys k) (value xs k)
unfolding value
value-append [] ys k = sym (or_else-none (value ys k))
value-append (x ∷ xs) ys k =
    rw (value-append xs ys k) (or_else_assoc (value ys k) (value xs k) (entry (cut b'=' x) k))

lookup_absent : (m : List (String × String)) (k : String) → All (λ o. o.0 ≢ k) m → lookup m k ≡ none
unfolding lookup
lookup_absent [] k h = refl
lookup_absent ((j, v) ∷ m) k h = rw (str_eq_ne h.0) (lookup_absent m k h.1)

value-added :
    (m : List (String × String)) (k : String) → IsOverrides m → value (added m) k ≡ lookup m k
unfolding value added lookup
value-added [] k h = refl
value-added ((j, v) ∷ m) k (c, n, h) = elim (Bool-cases (str_eq j k)) [
  | inl e ↦
      rw
        (
          value-added m k h,
          cut-append b'=' "=" j v refl c,
          e,
          lookup_absent m k (subst (λ x. All (λ o. o.0 ≢ x) m) (str_eq→eq e) n),
        )
        refl
  | inr e ↦ rw (value-added m k h, cut-append b'=' "=" j v refl c, e) (or_else-none (lookup m k))
]

-- A line that is dropped has another key.
entry_dropped :
    (m : List (String × String)) (o : Option (String × String)) (k : String)
    → lookup m k ≡ none
    → is_dropped m o ≡ true
    → entry o k ≡ none
entry_dropped m none k h d = refl
entry_dropped m (some (j, v)) k h d = elim (Bool-cases (str_eq j k)) [
  | inl e ↦ absurd (cc (subst (λ x. is_given (lookup m x) ≡ true) (str_eq→eq e) d, h))
  | inr e ↦ rw e refl
]

value-keep_base :
    (m : List (String × String)) (base : List String) (k : String)
    → lookup m k ≡ none
    → value (keep_base m base) k ≡ value base k
unfolding value keep_base
value-keep_base m [] k h = refl
value-keep_base m (e ∷ es) k h = elim (Bool-cases (is_dropped m (cut b'=' e))) [
  | inl d ↦
      rw (d, value-keep_base m es k h, entry_dropped m (cut b'=' e) k h d)
        (sym (or_else-none (value es k)))
  | inr d ↦ rw (d, value-keep_base m es k h) refl
]

merged :
    (base : List String) (m : List (String × String)) (k : String)
    → IsOverrides m
    → value (keep_base m base ++ added m) k ≡ or_else (lookup m k) (value base k)
merged base m k h = elim (Option-cases (lookup m k)) [
  | inl e ↦
      rw (value-append (keep_base m base) (added m) k, value-added m k h, e)
        (value-keep_base m base k e)
  | inr (v, e) ↦ rw (value-append (keep_base m base) (added m) k, value-added m k h, e) refl
]

-- What a process finds in the merged environment is what the overrides give a variable, and else what the
-- base gives it, where each override is listed once and no override's key has a `=` in it.
pub merge_environment-overrides :
    (base : List String) (overrides : List (String × String))
    → IsOverrides overrides
    → value (merge_environment base overrides) ≡ (λ k. or_else (lookup overrides k) (value base k))
unfolding merge_environment lookup
merge_environment-overrides base [] h = refl
merge_environment-overrides base (o ∷ os) h = fun_ext λ k. merged base (o ∷ os) k h

insert_others :
    (m : List (String × String)) (k v j : String)
    → k ≢ j
    → All (λ o. o.0 ≢ j) m
    → All (λ o. o.0 ≢ j) (insert m k v)
unfolding insert
insert_others [] k v j n h = (n, tt)
insert_others ((i, u) ∷ m) k v j n h = elim (Bool-cases (str_eq i k)) [
  | inl e ↦ rw e (n, h.1)
  | inr e ↦ rw e (h.0, insert_others m k v j n h.1)
]

insert-IsOverrides :
    (m : List (String × String)) (k v : String)
    → cut b'=' k ≡ none
    → IsOverrides m
    → IsOverrides (insert m k v)
unfolding insert
insert-IsOverrides [] k v c h = (c, tt, tt)
insert-IsOverrides ((j, u) ∷ m) k v c (d, n, h) = elim (Bool-cases (str_eq j k)) [
  | inl e ↦ rw e (c, subst (λ x. All (λ o. o.0 ≢ x) m) (str_eq→eq e) n, h)
  | inr e ↦
      rw e (d, insert_others m k v j (λ f. str_eq→ne e (sym f)) n, insert-IsOverrides m k v c h)
]

injected-IsOverrides :
    (format : ℕ → String) (env : List (String × String)) (workload id : String) (generation : ℕ)
    → IsOverrides env
    → IsOverrides (inject_consumer_metadata format env workload id generation)
unfolding inject_consumer_metadata cut
injected-IsOverrides format env workload id generation h =
    insert-IsOverrides _ _ _ refl (insert-IsOverrides _ _ _ refl (insert-IsOverrides _ _ _ refl h))

workload_ne_id : env_workload ≢ env_worker_id
workload_ne_id = str_eq→ne {s = env_workload} {t = env_worker_id} refl

workload_ne_generation : env_workload ≢ env_generation
workload_ne_generation = str_eq→ne {s = env_workload} {t = env_generation} refl

id_ne_generation : env_worker_id ≢ env_generation
id_ne_generation = str_eq→ne {s = env_worker_id} {t = env_generation} refl

lookup_injected :
    (format : ℕ → String) (env : List (String × String)) (workload id : String) (generation : ℕ)
    → let m = inject_consumer_metadata format env workload id generation in
      (lookup m env_workload ≡ some workload)
      × (lookup m env_worker_id ≡ some id)
      × (lookup m env_generation ≡ some (format generation))
      × ((k : String)
          → env_workload ≢ k
          → env_worker_id ≢ k
          → env_generation ≢ k
          → lookup m k ≡ lookup env k)
unfolding inject_consumer_metadata
lookup_injected format env workload id generation = (
  lookup-insert_ne _ (format generation) (λ e. workload_ne_generation (sym e))
      ∙ (lookup-insert_ne _ id (λ e. workload_ne_id (sym e))
          ∙ lookup-insert_self env env_workload workload),
  lookup-insert_ne _ (format generation) (λ e. id_ne_generation (sym e))
      ∙ lookup-insert_self _ env_worker_id id,
  lookup-insert_self _ env_generation (format generation),
  λ k a b c.
      lookup-insert_ne _ (format generation) c
      ∙ (lookup-insert_ne _ id b ∙ lookup-insert_ne env workload a),
)

abbrev pub Finds : List String → String → String → Type 0
Finds env k v = value env k ≡ some v

override-Finds :
    (base : List String) (m : List (String × String)) (k : String) {v : String}
    → IsOverrides m
    → lookup m k ≡ some v
    → Finds (merge_environment base m) k v
override-Finds base m k h e =
    ap (λ f. f k) (merge_environment-overrides base m h) ∙ ap (λ o. or_else o (value base k)) e

as_found :
    (base : List String) (m env : List (String × String)) (k : String)
    → IsOverrides m
    → IsOverrides env
    → lookup m k ≡ lookup env k
    → value (merge_environment base m) k ≡ value (merge_environment base env) k
as_found base m env k p h e =
    ap (λ f. f k) (merge_environment-overrides base m p)
    ∙ (ap (λ o. or_else o (value base k)) e
        ∙ sym (ap (λ f. f k) (merge_environment-overrides base env h)))

-- Where the configured environment lists each variable once and none whose name has a `=` in it, a consumer's
-- process finds the workload, the worker's id and the generation that the server means, whatever the configured and
-- the inherited environment say of these variables, and every other variable as it is configured or inherited.
pub inject_consumer_metadata-Finds :
    (format : ℕ → String) (base : List String) (env : List (String × String)) (workload id : String)
    (generation : ℕ)
    → IsOverrides env
    → let seen =
        merge_environment base (inject_consumer_metadata format env workload id generation) in
      Finds seen env_workload workload
      × Finds seen env_worker_id id
      × Finds seen env_generation (format generation)
      × ((k : String)
          → env_workload ≢ k
          → env_worker_id ≢ k
          → env_generation ≢ k
          → value seen k ≡ value (merge_environment base env) k)
inject_consumer_metadata-Finds format base env workload id generation h =
    let m = inject_consumer_metadata format env workload id generation in
    let p = injected-IsOverrides format env workload id generation h in
    let (a, b, c, d) = lookup_injected format env workload id generation in
    (
      override-Finds base m _ p a,
      override-Finds base m _ p b,
      override-Finds base m _ p c,
      λ k x y z. as_found base m env k p h (d k x y z),
    )
