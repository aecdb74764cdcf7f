-- ===== src/Scaling/Decisions.antt =====
-- What one decision of the hysteresis does, by its reason.
use eregion.Prelude.{
  ℕ, ◌+◌, ◌≤◌, ◌<◌, ◌≡◌, refl, true, false, Option, none, some, ltb, inl, inr, Bool-cases, arith,
}
use eregion.Prelude.Int.{ℤ, ltb_ℤ, ◌<ℤ◌}
use eregion.Prelude.Maps.{lookup, insert, delete}
use eregion.Workload.Model.{ResolvedWorkloadSpec}
use eregion.Scaling.Hysteresis.{
  Hysteresis, up_cooldown, down_idle, is_recent, scale_up, scale_down, decide,
}

-- What one decision does, by its reason.
pub data Decision (h : Hysteresis) (spec : ResolvedWorkloadSpec) (prev raw : ℤ) (now : ℕ)
    : Hysteresis × ℤ → Type 0 where
  held_up :
      prev <ℤ raw
      → is_recent h.last_scale_up (up_cooldown spec) now ≡ true
      → Decision h spec prev raw now (h, prev)
  raised :
      prev <ℤ raw
      → is_recent h.last_scale_up (up_cooldown spec) now ≡ false
      → Decision h spec prev raw now (
        record h {
          last_scale_up = some now;
          scale_down_since = delete h.scale_down_since spec.name;
        },
        raw,
      )
  began :
      raw <ℤ prev
      → lookup h.scale_down_since spec.name ≡ none
      → Decision h spec prev raw now
          (record h { scale_down_since = insert h.scale_down_since spec.name now }, prev)
  waiting :
      (since : ℕ)
      → raw <ℤ prev
      → lookup h.scale_down_since spec.name ≡ some since
      → now < since + down_idle spec
      → Decision h spec prev raw now (h, prev)
  lowered :
      (since : ℕ)
      → raw <ℤ prev
      → lookup h.scale_down_since spec.name ≡ some since
      → since + down_idle spec ≤ now
      → Decision h spec prev raw now
          (record h { scale_down_since = delete h.scale_down_since spec.name }, raw)
  steady :
      ltb_ℤ prev raw ≡ false
      → ltb_ℤ raw prev ≡ false
      → Decision h spec prev raw now
          (record h { scale_down_since = delete h.scale_down_since spec.name }, raw)

scale_up-Decision :
    (h : Hysteresis) (spec : ResolvedWorkloadSpec) (prev raw : ℤ) (now : ℕ)
    → prev <ℤ raw
    → Decision h spec prev raw now (scale_up h spec prev raw now)
unfolding scale_up
scale_up-Decision h spec prev raw now l =
    elim (Bool-cases (is_recent h.last_scale_up (up_cooldown spec) now)) [
      | inl e ↦ rw e (held_up l e)
      | inr e ↦ rw e (raised l e)
    ]

scale_down-Decision :
    (h : Hysteresis) (spec : ResolvedWorkloadSpec) (prev raw : ℤ) (now : ℕ) (since : Option ℕ)
    → raw <ℤ prev
    → lookup h.scale_down_since spec.name ≡ since
    → Decision h spec prev raw now (scale_down h spec prev raw now since)
unfolding scale_down
scale_down-Decision h spec prev raw now none l e = began l e
scale_down-Decision h spec prev raw now (some s) l e =
    elim (Bool-cases (ltb now (s + down_idle spec))) [
      | inl f ↦ rw f (waiting s l e (ground arith))
      | inr f ↦ rw f (lowered s l e (ground arith))
    ]

pub decide-Decision :
    (h : Hysteresis) (spec : ResolvedWorkloadSpec) (prev raw : ℤ) (now : ℕ)
    → Decision h spec prev raw now (decide h spec prev raw now)
unfolding decide
decide-Decision h spec prev raw now = elim (Bool-cases (ltb_ℤ prev raw)) [
  | inl e ↦ rw e (scale_up-Decision h spec prev raw now (ground (arith, e)))
  | inr e ↦ elim (Bool-cases (ltb_ℤ raw prev)) [
    | inl f ↦
        rw (e, f)
          (scale_down-Decision h spec prev raw now (lookup h.scale_down_since spec.name)
            (ground (arith, f)) refl)
    | inr f ↦ rw (e, f) (steady e f)
  ]
]
