-- ===== src/Config/Distinct.antt =====
-- The paths of the endpoints, once resolved and checked.
use Prim.Native.String
use text.Mathlib.Text.{◌==◌ as str_eq, starts_with}
use text.Mathlib.TextPositions.{starts_with-append}
use eregion.Prelude.{
  ◌||◌, ◌≡◌, ◌≢◌, refl, true, false, not, none, List, [], ◌∷◌, All, String, inl, inr, Bool-cases,
}
use eregion.Prelude.Maps.{str_eq→ne}
use eregion.Prelude.Results.{Ensures, Ensures-ok, Ensures->>=, Ensures-guard}
use eregion.Prelude.Texts.{is_empty, trim_space, trim_slash}
use eregion.Prelude.Paths.{join_parts, rooted, parts_of, clean}
use eregion.Config.Types.{Config, EndpointConfig}
use eregion.Config.Paths.{
  or_root, with_slash, join_operation_path, resolve_operation_path, resolve_endpoints, is_listed,
  collision,
}

abbrev pub Differ : EndpointConfig → EndpointConfig → Type 0
Differ e f = e.enabled ≡ true → f.enabled ≡ true → e.path ≢ f.path

abbrev pub AreDistinct : List EndpointConfig → Type 0
AreDistinct [] = Unit
AreDistinct (e ∷ es) = All (Differ e) es × AreDistinct es

-- No enabled endpoint has one of these paths.
abbrev Avoids : List String → EndpointConfig → Type 0
Avoids seen e = e.enabled ≡ true → is_listed seen e.path ≡ false

not_listed :
    (p : String) (seen : List String) (q : String)
    → is_listed (p ∷ seen) q ≡ false
    → (p ≢ q) × (is_listed seen q ≡ false)
not_listed p seen q h = elim (Bool-cases (str_eq p q)) [
  | inl e ↦ absurd (cc (h, e))
  | inr e ↦ (str_eq→ne e, rw e at h)
]

split-Avoids :
    (p : String) (seen : List String) (es : List EndpointConfig)
    → All (Avoids (p ∷ seen)) es
    → All (λ f. f.enabled ≡ true → p ≢ f.path) es × All (Avoids seen) es
split-Avoids p seen [] h = (tt, tt)
split-Avoids p seen (f ∷ es) h =
    let rest = split-Avoids p seen es h.1 in
    (
      (λ on. (not_listed p seen f.path (h.0 on)).0, rest.0),
      (λ on. (not_listed p seen f.path (h.0 on)).1, rest.1),
    )

weaken :
    (e : EndpointConfig) (es : List EndpointConfig)
    → All (λ f. f.enabled ≡ true → e.path ≢ f.path) es
    → All (Differ e) es
weaken e [] h = tt
weaken e (f ∷ es) h = (λ _ on. h.0 on, weaken e es h.1)

disabled-Differ :
    (e : EndpointConfig) (es : List EndpointConfig) → e.enabled ≡ false → All (Differ e) es
disabled-Differ e [] h = tt
disabled-Differ e (f ∷ es) h = (λ on. absurd (cc (on, h)), disabled-Differ e es h)

collision-Avoids :
    (seen : List String) (es : List EndpointConfig)
    → collision seen es ≡ none
    → All (Avoids seen) es × AreDistinct es
unfolding collision
collision-Avoids seen [] h = (tt, tt)
collision-Avoids seen (e ∷ es) h = elim (Bool-cases e.enabled) [
  | inr off ↦
      let rest = collision-Avoids seen es (rw off at h) in
      ((λ on. absurd (cc (on, off)), rest.0), (disabled-Differ e es off, rest.1))
  | inl on ↦ elim (Bool-cases (is_listed seen e.path)) [
    | inl l ↦ absurd (cc (rw (on, l) at h))
    | inr l ↦
        let rest = collision-Avoids (e.path ∷ seen) es (rw (on, l) at h) in
        let both = split-Avoids e.path seen es rest.0 in
        ((λ _. l, both.1), (weaken e es both.0, rest.1))
  ]
]

pub collision-AreDistinct : (es : List EndpointConfig) → collision [] es ≡ none → AreDistinct es
collision-AreDistinct es h = (collision-Avoids [] es h).1

abbrev pub IsRooted : String → Type 0
IsRooted p = starts_with p "/" ≡ true

rooted-IsRooted : (ps : List String) → IsRooted (rooted ps)
rooted-IsRooted [] = refl
rooted-IsRooted (p ∷ ps) = starts_with-append "/" (String.◌++◌ p (join_parts ps))

clean-IsRooted : (s : String) → IsRooted (clean s)
unfolding clean
clean-IsRooted s = rooted-IsRooted (parts_of s)

join_operation_path-IsRooted : (prefix path : String) → IsRooted (join_operation_path prefix path)
unfolding join_operation_path
join_operation_path-IsRooted prefix path =
    elim (Bool-cases (str_eq path prefix || starts_with path (String.◌++◌ prefix "/"))) [
      | inl e ↦ rw e (clean-IsRooted path)
      | inr e ↦ rw e (clean-IsRooted (String.◌++◌ prefix path))
    ]

resolve_operation_path-IsRooted :
    (prefix endpoint : String) → Ensures IsRooted (resolve_operation_path prefix endpoint)
unfolding resolve_operation_path
resolve_operation_path-IsRooted prefix endpoint =
    Ensures-guard (is_empty (trim_space prefix)) _ _ λ _.
      Ensures-guard (not (starts_with (trim_space prefix) "/")) _ _ λ _.
        Ensures-guard (is_empty (trim_space endpoint)) _ _ λ _. Ensures-ok (
          join_operation_path-IsRooted (or_root (trim_slash (trim_space prefix)))
            (with_slash (trim_space endpoint)))

module _ {F : Type 0} where
  abbrev pub AreRooted : Config F → Type 0
  AreRooted c =
      IsRooted c.metrics.path
      × IsRooted c.health.path
      × IsRooted c.readiness.path
      × IsRooted c.liveness.path

  pub resolve_endpoints-AreRooted : (c : Config F) → Ensures AreRooted (resolve_endpoints c)
  unfolding resolve_endpoints
  resolve_endpoints-AreRooted c = Ensures->>= λ m p. Ensures->>= λ h q. Ensures->>= λ r s.
      Ensures->>= λ l t. Ensures-ok (
        (resolve_operation_path-IsRooted c.prefix c.metrics.path).holds m p,
        (resolve_operation_path-IsRooted c.prefix c.health.path).holds h q,
        (resolve_operation_path-IsRooted c.prefix c.readiness.path).holds r s,
        (resolve_operation_path-IsRooted c.prefix c.liveness.path).holds l t,
      )
