-- ===== src/Server/Mux.antt =====
-- When the routes can be registered.
use text.Mathlib.Text.{◌==◌ as str_eq}
use eregion.Prelude.{
  ◌≡◌, ◌≢◌, ◌↔◌, refl, sym, ◌∙◌, Bool, true, false, some, List, [], ◌∷◌, ◌++◌, All, String,
  if◌then◌else◌, inl, inr, Bool-cases,
}
use eregion.Prelude.Maps.{str_eq→ne, str_eq_ne}
use eregion.Config.Types.{Std, Config, EndpointConfig}
use eregion.Config.Paths.{endpoints}
use eregion.Config.Distinct.{Differ, AreDistinct}
use eregion.Config.Validated.{IsValid}
use eregion.Server.Routes.{
  Handler, dispatcher, no_http, only_enabled, endpoint_handlers, routes, is_registered,
  register_all, Accepts, AreKnown, fresh, is_plain, IsServeMux,
}

abbrev pub IsBelowRoot : EndpointConfig → Type 0
IsBelowRoot e = e.enabled ≡ true → e.path ≢ "/"

abbrev IsFresh : List (String × Handler) → EndpointConfig → Type 0
IsFresh mux e = e.enabled ≡ true → is_registered mux e.path ≡ false

abbrev firsts : List (EndpointConfig × Handler) → List EndpointConfig
firsts [] = []
firsts ((e, h) ∷ es) = e ∷ firsts es

not_registered :
    (p : String) (h : Handler) (mux : List (String × Handler)) (q : String)
    → p ≢ q
    → is_registered mux q ≡ false
    → is_registered ((p, h) ∷ mux) q ≡ false
not_registered p h mux q n e = rw (str_eq_ne n) e

still-IsFresh :
    (e : EndpointConfig) (h : Handler) (mux : List (String × Handler)) (es : List EndpointConfig)
    → e.enabled ≡ true
    → All (Differ e) es
    → All (IsFresh mux) es
    → All (IsFresh ((e.path, h) ∷ mux)) es
still-IsFresh e h mux [] on d f = tt
still-IsFresh e h mux (x ∷ es) on d f = (
  λ o. not_registered e.path h mux x.path (d.0 on o) (f.0 o),
  still-IsFresh e h mux es on d.1 f.1,
)

abbrev Registers : List (String × Handler) → List (EndpointConfig × Handler) → Handler → Type 0
Registers mux es h =
    (m : List (String × Handler)) × (register_all fresh mux (only_enabled es ++ (("/", h) ∷ []))
      ≡ some m)

-- Endpoints that differ from each other and from what is there, and none of which is the root.
registers :
    (mux : List (String × Handler)) (es : List (EndpointConfig × Handler)) (h : Handler)
    → AreDistinct (firsts es)
    → All (IsFresh mux) (firsts es)
    → is_registered mux "/" ≡ false
    → All IsBelowRoot (firsts es)
    → Registers mux es h
unfolding register_all
registers mux [] h d f r b = (("/", h) ∷ mux, rw r refl)
registers mux ((e, g) ∷ es) h d f r b = elim (Bool-cases e.enabled) [
  | inr off ↦ rw off (registers mux es h d.1 f.1 r b.1)
  | inl on ↦
      let rest =
        registers ((e.path, g) ∷ mux) es h d.1 (still-IsFresh e g mux (firsts es) on d.0 f.1)
          (not_registered e.path g mux "/" (b.0 on) r) b.1 in
      (rest.0, rw (on, f.0 on) rest.1)
]

unregistered :
    (p : String) (h : Handler) (mux : List (String × Handler))
    → is_registered ((p, h) ∷ mux) "/" ≡ false
    → (p ≢ "/") × (is_registered mux "/" ≡ false)
unregistered p h mux e = elim (Bool-cases (str_eq p "/")) [
  | inl f ↦ absurd (cc (e, f))
  | inr f ↦ (str_eq→ne f, rw f at e)
]

root_free :
    (mux : List (String × Handler)) (es : List (EndpointConfig × Handler)) (h : Handler)
    → Registers mux es h
    → (is_registered mux "/" ≡ false) × All IsBelowRoot (firsts es)
unfolding register_all
root_free mux [] h (m, e) = elim (Bool-cases (is_registered mux "/")) [
  | inl r ↦ absurd (cc (rw r at e))
  | inr r ↦ (r, tt)
]
root_free mux ((x, g) ∷ es) h (m, e) = elim (Bool-cases x.enabled) [
  | inr off ↦
      let (r, b) = root_free mux es h (m, rw off at e) in (r, (λ on. absurd (cc (on, off)), b))
  | inl on ↦ elim (Bool-cases (is_registered mux x.path)) [
    | inl r ↦ absurd (cc (rw (on, r) at e))
    | inr r ↦
        let (s, b) = root_free ((x.path, g) ∷ mux) es h (m, rw (on, r) at e) in
        let (n, t) = unregistered x.path g mux s in (t, (λ _. n, b))
  ]
]

swap : {a b : EndpointConfig} → Differ a b → Differ b a
swap h on off e = h off on (sym e)

-- Among plain paths any `http.ServeMux` registers as `fresh` does.
register_all-fresh :
    (accepts : Accepts) (mux rs : List (String × Handler))
    → IsServeMux accepts
    → AreKnown mux
    → AreKnown rs
    → register_all accepts mux rs ≡ register_all fresh mux rs
unfolding register_all
register_all-fresh accepts mux [] s k r = refl
register_all-fresh accepts mux ((p, h) ∷ rs) s k r =
    rw (s.plain mux p k r.0, register_all-fresh accepts ((p, h) ∷ mux) rs s (r.0, k) r.1) refl

abbrev pub IsPlain : EndpointConfig → Type 0
IsPlain e = e.enabled ≡ true → is_plain e.path ≡ true

only_enabled-AreKnown :
    (es : List (EndpointConfig × Handler)) (h : Handler)
    → All IsPlain (firsts es)
    → AreKnown (only_enabled es ++ (("/", h) ∷ []))
only_enabled-AreKnown [] h k = (refl, tt)
only_enabled-AreKnown ((e, g) ∷ es) h k = elim (Bool-cases e.enabled) [
  | inr off ↦ rw off (only_enabled-AreKnown es h k.1)
  | inl on ↦ rw on (k.0 on, only_enabled-AreKnown es h k.1)
]

module _ (std : Std) where
  -- For a validated configuration whose enabled endpoints have plain paths (rooted, and with no space, tab, `{` or
  -- `%` in them), and a `ServeMux` that among plain paths panics just at one that is registered again: `New`
  -- registers its routes without a panic just where no enabled endpoint has the path `/`, which `Validate` lets
  -- through.
  pub routes-IsBelowRoot :
      (accepts : Accepts) (d : Config std.F) (has_http : Bool)
      → IsServeMux accepts
      → IsValid std d
      → All IsPlain (endpoints d)
      → ((m : List (String × Handler)) × (register_all accepts [] (routes d has_http) ≡ some m))
        ↔ All IsBelowRoot (endpoints d)
  unfolding routes
  routes-IsBelowRoot accepts d has_http mux v plain =
      let ((mh, (mr, (ml, _))), ((hr, (hl, _)), ((rl, _), _))) = v.distinct in
      let last = if has_http then dispatcher else no_http in
      let es = endpoint_handlers d has_http in
      let (pm, (ph, (pe, (pl, _)))) = plain in
      let same =
        register_all-fresh accepts [] (only_enabled es ++ (("/", last) ∷ [])) mux tt
          (only_enabled-AreKnown es last (pl, (pe, (ph, (pm, tt))))) in
      (
        λ r.
            let (l, (e, (h, (m, _)))) = (root_free [] es last (r.0, sym same ∙ r.1)).1 in
            (m, (h, (e, (l, tt)))),
        λ b.
            let (m, (h, (e, (l, _)))) = b in
            let found =
              registers [] es last
                (
                  (swap rl, (swap hl, (swap ml, tt))),
                  ((swap hr, (swap mr, tt)), ((swap mh, tt), (tt, tt))),
                )
                (λ _. refl, (λ _. refl, (λ _. refl, (λ _. refl, tt)))) refl
                (l, (e, (h, (m, tt)))) in
            (found.0, same ∙ found.1),
      )
