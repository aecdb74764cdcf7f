-- ===== src/Scaling/Cooldown.antt =====
-- Hysteresis: how far apart scale-ups are, and a wait that a held-back scale-up does not end.
use eregion.Prelude.{
  ℕ, ◌+◌, ◌≤◌, ◌<◌, ◌≡◌, refl, sym, ap, ◌∙◌, true, false, Option, none, some, List, [], ◌∷◌, ◌++◌,
  if◌then◌else◌, String, arith, some_eq,
}
use mathlib.Core.Path.{subst}
use eregion.Prelude.Int.{ℤ, ltb_ℤ, ◌<ℤ◌}
use eregion.Prelude.Maps.{lookup, lookup-insert_self}
use eregion.Workload.Model.{ResolvedWorkloadSpec, WorkloadMetrics}
use eregion.Scaling.Hysteresis.{
  Hysteresis, previous, up_cooldown, down_idle, is_recent, decide, damped_workers, remember,
}
use eregion.Scaling.Decisions.{
  Decision, held_up, raised, began, waiting, lowered, steady, decide-Decision,
}
use eregion.Scaling.Patience.{Observation, Entry, observe, Run, start, step}

-- The time of a decision that raised the number, else `before`.
abbrev pub raise_time : Entry → Option ℕ → Option ℕ
raise_time e before = if ltb_ℤ e.prev e.result then some e.now else before

-- When the run last raised the number.
abbrev pub last_raise : List Entry → Option ℕ → Option ℕ
last_raise [] t = t
last_raise (e ∷ es) t = last_raise es (raise_time e t)

last_raise-append :
    (xs : List Entry) (e : Entry) (t : Option ℕ)
    → last_raise (xs ++ (e ∷ [])) t ≡ raise_time e (last_raise xs t)
last_raise-append [] e t = refl
last_raise-append (x ∷ xs) e t = last_raise-append xs e (raise_time x t)

made : ℤ → ℤ → ℕ → ℤ → Entry
made prev raw now n = record { now = now; prev = prev; raw = raw; result = n }

Decision-last :
    {h : Hysteresis} {spec : ResolvedWorkloadSpec} {prev raw : ℤ} {now : ℕ} (r : Hysteresis × ℤ)
    → Decision h spec prev raw now r
    → (r.0).last_scale_up ≡ raise_time (made prev raw now r.1) h.last_scale_up
unfolding made
Decision-last r (held_up l c) = ground arith
Decision-last r (raised l c) = ground arith
Decision-last r (began l c) = ground arith
Decision-last r (waiting t l c d) = ground arith
Decision-last r (lowered t l c d) = ground arith
Decision-last r (steady a b) = ground (arith, a)

remember-last :
    (name : String) (r : Hysteresis × ℤ) → ((remember name r).0).last_scale_up ≡ (r.0).last_scale_up
remember-last name (h, n) = refl

remember-number : (name : String) (r : Hysteresis × ℤ) → (remember name r).1 ≡ r.1
remember-number name (h, n) = refl

Run-last :
    {spec : ResolvedWorkloadSpec} {h h' : Hysteresis} {log : List Entry}
    → Run spec h h' log
    → h'.last_scale_up ≡ last_raise log h.last_scale_up
unfolding damped_workers made
Run-last start = refl
Run-last {spec} {h} (step {h' = mid} {log = log} run o) =
    let prev = previous mid spec.name o.metrics in
    let r = decide mid spec prev o.raw o.now in
    remember-last spec.name r
    ∙ (Decision-last r (decide-Decision mid spec prev o.raw o.now)
        ∙ (ap (raise_time (made prev o.raw o.now r.1)) (Run-last run)
            ∙ sym (last_raise-append log (made prev o.raw o.now r.1) h.last_scale_up)))

raised_after :
    {h : Hysteresis} {spec : ResolvedWorkloadSpec} {prev raw : ℤ} {now : ℕ} (r : Hysteresis × ℤ)
    → Decision h spec prev raw now r
    → prev <ℤ r.1
    → is_recent h.last_scale_up (up_cooldown spec) now ≡ false
raised_after r (held_up l c) k = absurd (omega arith)
raised_after r (raised l c) k = c
raised_after r (began l c) k = absurd (omega arith)
raised_after r (waiting t l c d) k = absurd (omega arith)
raised_after r (lowered t l c d) k = absurd (omega arith)
raised_after r (steady a b) k = absurd (ground (arith, a, b))

not_recent : (t wait now : ℕ) → is_recent (some t) wait now ≡ false → t + wait ≤ now
not_recent t wait now h = ground arith

-- In a run from a fresh start, a decision that raises the number comes at least the cooldown after
-- the last one that did.
pub raises_apart :
    {spec : ResolvedWorkloadSpec} {h h' : Hysteresis} {log : List Entry} (o : Observation) (t : ℕ)
    → h.last_scale_up ≡ none
    → Run spec h h' log
    → last_raise log none ≡ some t
    → previous h' spec.name o.metrics <ℤ (observe spec h' o).1
    → t + up_cooldown spec ≤ o.now
unfolding damped_workers
raises_apart {spec} {h} {h'} {log} o t fresh run last more =
    let prev = previous h' spec.name o.metrics in
    let r = decide h' spec prev o.raw o.now in
    let recent = raised_after r (decide-Decision h' spec prev o.raw o.now) more in
    let up = Run-last run ∙ (ap (last_raise log) fresh ∙ last) in
    not_recent t (up_cooldown spec) o.now
      (subst (λ x. is_recent x (up_cooldown spec) o.now ≡ false) up recent)

held_up_only :
    {h : Hysteresis} {spec : ResolvedWorkloadSpec} {prev raw : ℤ} {now : ℕ} (r : Hysteresis × ℤ)
    → Decision h spec prev raw now r
    → prev <ℤ raw
    → is_recent h.last_scale_up (up_cooldown spec) now ≡ true
    → r ≡ (h, prev)
held_up_only r (held_up l c) k e = refl
held_up_only r (raised l c) k e = absurd (cc (c, e))
held_up_only r (began l c) k e = absurd (omega arith)
held_up_only r (waiting t l c d) k e = absurd (omega arith)
held_up_only r (lowered t l c d) k e = absurd (omega arith)
held_up_only r (steady a b) k e = absurd (ground (arith, a))

later : (t s now wait : ℕ) → t ≡ s → now < t + wait → s + wait ≤ now → ⊥
later t s now wait e d f = omega arith

lowered_only :
    {h : Hysteresis} {spec : ResolvedWorkloadSpec} {prev raw : ℤ} {now : ℕ} (r : Hysteresis × ℤ)
    (since : ℕ)
    → Decision h spec prev raw now r
    → raw <ℤ prev
    → lookup h.scale_down_since spec.name ≡ some since
    → since + down_idle spec ≤ now
    → r.1 ≡ raw
lowered_only r s (held_up l c) k e f = absurd (omega arith)
lowered_only r s (raised l c) k e f = refl
lowered_only r s (began l c) k e f = absurd (cc (c, e))
lowered_only {spec = spec} {now = now} r s (waiting t l c d) k e f =
    absurd (later t s now (down_idle spec) (some_eq (sym c ∙ e)) d f)
lowered_only r s (lowered t l c d) k e f = refl
lowered_only r s (steady a b) k e f = refl

previous-held :
    (h : Hysteresis) (spec : ResolvedWorkloadSpec) (prev : ℤ) (metrics : WorkloadMetrics)
    → previous (remember spec.name (h, prev)).0 spec.name metrics ≡ prev
previous-held h spec prev metrics = rw (lookup-insert_self h.last_desired spec.name prev) refl

lowers_now :
    (spec : ResolvedWorkloadSpec) (k : Hysteresis) (prev : ℤ) (since : ℕ) (o : Observation)
    → previous k spec.name o.metrics ≡ prev
    → lookup k.scale_down_since spec.name ≡ some since
    → o.raw <ℤ prev
    → since + down_idle spec ≤ o.now
    → (observe spec k o).1 ≡ o.raw
unfolding damped_workers
lowers_now spec k prev since o p w less late =
    let r = decide k spec (previous k spec.name o.metrics) o.raw o.now in
    remember-number spec.name r
    ∙ lowered_only r since (decide-Decision k spec (previous k spec.name o.metrics) o.raw o.now)
        (subst (λ x. o.raw <ℤ x) (sym p) less) w late

-- While a wait is under way, a decision that wants more but meets the cooldown does not end it: when
-- less is wanted again and the idle time has passed since the wait began, the number goes down at
-- once, although less was not wanted all the time.
pub wait_survives_demand :
    (spec : ResolvedWorkloadSpec) (h : Hysteresis) (since : ℕ) (up down : Observation)
    → lookup h.scale_down_since spec.name ≡ some since
    → previous h spec.name up.metrics <ℤ up.raw
    → is_recent h.last_scale_up (up_cooldown spec) up.now ≡ true
    → down.raw <ℤ previous h spec.name up.metrics
    → since + down_idle spec ≤ down.now
    → (observe spec (observe spec h up).0 down).1 ≡ down.raw
unfolding damped_workers
wait_survives_demand spec h since up down w more recent less late =
    let prev = previous h spec.name up.metrics in
    let first =
      held_up_only (decide h spec prev up.raw up.now) (decide-Decision h spec prev up.raw up.now)
        more recent in
    subst (λ r. (observe spec (remember spec.name r).0 down).1 ≡ down.raw) (sym first)
      (lowers_now spec (remember spec.name (h, prev)).0 prev since down
        (previous-held h spec prev down.metrics) w less late)
