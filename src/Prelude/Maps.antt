-- ===== src/Prelude/Maps.antt =====
-- Go's `map[string]A`, as a list of its entries.
use Prim.Native.String.{String}
use text.Mathlib.Text.{◌==◌ as str_eq}
use text.Mathlib.TextEquality.{eq_iff}
use mathlib.Core.Path.{◌≡◌, refl, sym, ◌∙◌}
use mathlib.Core.Logic.{◌≢◌, inl, inr}
use mathlib.Core.Bool.{true, false}
use mathlib.Core.Option.{Option, none, some}
use mathlib.Core.List.{List, [], ◌∷◌}
use eregion.Prelude.Tests.{if◌then◌else◌, Bool-cases}

pub str_eq_self : (s : String) → str_eq s s ≡ true
str_eq_self s = (eq_iff s s).1 refl

pub str_eq_ne : {s t : String} → s ≢ t → str_eq s t ≡ false
str_eq_ne {s} {t} h = elim (Bool-cases (str_eq s t)) [
  | inl e ↦ absurd (h ((eq_iff s t).0 e))
  | inr e ↦ e
]

pub str_eq→eq : {s t : String} → str_eq s t ≡ true → s ≡ t
str_eq→eq {s} {t} h = (eq_iff s t).0 h

pub str_eq→ne : {s t : String} → str_eq s t ≡ false → s ≢ t
str_eq→ne {s} {t} h e = cc (h, (eq_iff s t).1 e)

module _ {ℓ} {A : Type ℓ} where
  -- `v, ok := m[k]`
  unfoldable pub lookup : List (String × A) → String → Option A
  lookup [] k = none
  lookup ((j, v) ∷ m) k = let rest = lookup m k in if str_eq j k then some v else rest

  -- `m[k] = v`
  unfoldable pub insert : List (String × A) → String → A → List (String × A)
  insert [] k v = (k, v) ∷ []
  insert ((j, u) ∷ m) k v =
      let rest = insert m k v in if str_eq j k then (k, v) ∷ m else (j, u) ∷ rest

  -- `delete(m, k)`
  unfoldable pub delete : List (String × A) → String → List (String × A)
  delete [] k = []
  delete ((j, u) ∷ m) k = let rest = delete m k in if str_eq j k then rest else (j, u) ∷ rest

  pub lookup-insert_self :
      (m : List (String × A)) (k : String) (v : A) → lookup (insert m k v) k ≡ some v
  unfolding lookup insert
  lookup-insert_self [] k v = rw (str_eq_self k) refl
  lookup-insert_self ((j, u) ∷ m) k v = elim (Bool-cases (str_eq j k)) [
    | inl e ↦ rw (e, str_eq_self k) refl
    | inr e ↦ rw (e, e) (lookup-insert_self m k v)
  ]

  pub lookup-insert_ne :
      (m : List (String × A)) {k l : String} (v : A) → k ≢ l → lookup (insert m k v) l ≡ lookup m l
  unfolding lookup insert
  lookup-insert_ne [] v h = rw (str_eq_ne h) refl
  lookup-insert_ne ((j, u) ∷ m) {k} {l} v h = elim (Bool-cases (str_eq j k)) [
    | inl e ↦ rw (e, str_eq_ne h, str_eq_ne (λ f. h (sym (str_eq→eq e) ∙ f))) refl
    | inr e ↦ rw (e, lookup-insert_ne m v h) refl
  ]

  pub lookup-delete_self : (m : List (String × A)) (k : String) → lookup (delete m k) k ≡ none
  unfolding lookup delete
  lookup-delete_self [] k = refl
  lookup-delete_self ((j, u) ∷ m) k = elim (Bool-cases (str_eq j k)) [
    | inl e ↦ rw e (lookup-delete_self m k)
    | inr e ↦ rw (e, e) (lookup-delete_self m k)
  ]

  pub lookup-delete_ne :
      (m : List (String × A)) {k l : String} → k ≢ l → lookup (delete m k) l ≡ lookup m l
  unfolding lookup delete
  lookup-delete_ne [] h = refl
  lookup-delete_ne ((j, u) ∷ m) {k} {l} h = elim (Bool-cases (str_eq j k)) [
    | inl e ↦ rw (e, lookup-delete_ne m h, str_eq_ne (λ f. h (sym (str_eq→eq e) ∙ f))) refl
    | inr e ↦ rw (e, lookup-delete_ne m h) refl
  ]
