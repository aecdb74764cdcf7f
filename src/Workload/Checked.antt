-- ===== src/Workload/Checked.antt =====
-- What the checks at the end of `Resolve` let through.
use text.Mathlib.Text.{◌==◌ as str_eq}
use eregion.Prelude.{
  ◌<◌, ◌≡◌, refl, Bool, true, false, not, ◌&&◌, List, [], ◌∷◌, String, ◌⊎◌, inl, inr, Bool-cases,
  Option-cases, arith, length,
}
use eregion.Prelude.Int.{pos, ◌≤ℤ◌}
use eregion.Prelude.Maps.{str_eq→eq}
use eregion.Prelude.Results.{ok, IsPassed, first_error, first_error-IsPassed}
use eregion.Workload.Model.{ResolvedWorkloadSpec}
use eregion.Workload.Resolve.{or_text, checks, fill_defaults, check, is_known, no_entries}
use eregion.Prelude.Texts.{is_empty}

-- One of three texts.
abbrev pub IsOneOf : String → String → String → String → Type 0
IsOneOf s a b c = (s ≡ a) ⊎ ((s ≡ b) ⊎ (s ≡ c))

known_given : {s a b c : String} → is_empty s ≡ false → is_known s a b c ≡ true → IsOneOf s a b c
known_given {s} {a} {b} {c} e h = elim (Bool-cases (str_eq s a)) [
  | inl p ↦ inl (str_eq→eq p)
  | inr p ↦ elim (Bool-cases (str_eq s b)) [
    | inl q ↦ inr (inl (str_eq→eq q))
    | inr q ↦ elim (Bool-cases (str_eq s c)) [
      | inl r ↦ inr (inr (str_eq→eq r))
      | inr r ↦ absurd (cc (h, p, q, r, e))
    ]
  ]
]

-- A value that the checks let through is one of the three, once the empty one is replaced.
pub known-IsOneOf :
    (s a b c d : String) → is_known s a b c ≡ true → IsOneOf d a b c → IsOneOf (or_text s d) a b c
known-IsOneOf s a b c d h k = elim (Bool-cases (is_empty s)) [
  | inl e ↦ rw e k
  | inr e ↦ rw e (known_given e h)
]

pub record Accepted (out : ResolvedWorkloadSpec) : Type 0 where
  pub mode : (out.mode ≡ "http") ⊎ ((out.mode ≡ "consumer") × (0 < length out.command))
  pub min : pos 0 ≤ℤ out.workers.min
  pub max : out.workers.min ≤ℤ out.workers.max
  pub class' : is_known out.resources.class' "io" "cpu" "balanced" ≡ true
  pub strategy : is_known out.scaling.strategy "fixed" "backlog" "resources" ≡ true

some_entries : (xs : List String) → no_entries xs ≡ false → 0 < length xs
some_entries [] h = absurd (cc h)
some_entries (x ∷ xs) h = omega arith

false_of_not : {b : Bool} → not b ≡ false → b ≡ true
false_of_not {b = true} h = refl
false_of_not {b = false} h = absurd (cc h)

-- The mode's two checks say which it is, and that a consumer has a command.
mode_passed :
    (mode : String) (command : List String)
    → (not (str_eq mode "http") && not (str_eq mode "consumer")) ≡ false
    → (str_eq mode "consumer" && no_entries command) ≡ false
    → (mode ≡ "http") ⊎ ((mode ≡ "consumer") × (0 < length command))
mode_passed mode command h k = elim (Bool-cases (str_eq mode "http")) [
  | inl e ↦ inl (str_eq→eq e)
  | inr e ↦ elim (Bool-cases (str_eq mode "consumer")) [
    | inl f ↦ inr (str_eq→eq f, some_entries command (cc (k, f)))
    | inr f ↦ absurd (cc (h, e, f))
  ]
]

passed-Accepted : (out : ResolvedWorkloadSpec) → IsPassed (checks out) → Accepted out
passed-Accepted out (_, (m, (lo, (neg, (c, (cl, (st, _))))))) = record {
  mode = mode_passed out.mode out.command m c;
  min = ground (arith, neg);
  max = ground (arith, lo);
  class' = false_of_not cl;
  strategy = false_of_not st;
}

pub check-Accepted :
    {out r : ResolvedWorkloadSpec} → check out ≡ ok r → Accepted out × (r ≡ fill_defaults out)
unfolding check
check-Accepted {out} {r} h = elim (Option-cases (first_error (checks out))) [
  | inl e ↦ (passed-Accepted out (first_error-IsPassed (checks out) e), cc (h, e))
  | inr (x, e) ↦ absurd (cc (h, e))
]
