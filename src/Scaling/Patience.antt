-- ===== src/Scaling/Patience.antt =====
-- Hysteresis over a run of decisions for one workload: what a scale-down has waited for, how far
-- apart scale-ups are, and where the wait is not what it is said to be.
use eregion.Prelude.{
  ℕ, ◌+◌, ◌≤◌, ◌≡◌, refl, sym, ap, ◌∙◌, none, some, List, [], ◌∷◌, ◌++◌, String, ◌⊎◌, inl, inr,
  arith, All, All-append, some_eq,
}
use mathlib.Core.Path.{subst}
use eregion.Prelude.Int.{ℤ, ◌<ℤ◌}
use eregion.Prelude.Maps.{lookup, lookup-insert_self, lookup-delete_self}
use eregion.Workload.Model.{ResolvedWorkloadSpec, WorkloadMetrics}
use eregion.Scaling.Hysteresis.{Hysteresis, previous, down_idle, decide, damped_workers, remember}
use eregion.Scaling.Decisions.{
  Decision, held_up, raised, began, waiting, lowered, steady, decide-Decision,
}

pub record Observation : Type 0 where
  pub now : ℕ
  pub raw : ℤ
  pub metrics : WorkloadMetrics

pub record Entry : Type 0 where
  pub now : ℕ
  pub prev : ℤ
  pub raw : ℤ
  pub result : ℤ

abbrev pub observe : ResolvedWorkloadSpec → Hysteresis → Observation → Hysteresis × ℤ
observe spec h o = damped_workers h spec o.metrics o.raw o.now

abbrev pub entry : ResolvedWorkloadSpec → Hysteresis → Observation → Entry
entry spec h o = record {
  now = o.now;
  prev = previous h spec.name o.metrics;
  raw = o.raw;
  result = (observe spec h o).1;
}

-- The decisions so far, the newest at the end.
pub data Run (spec : ResolvedWorkloadSpec) (h : Hysteresis) : Hysteresis → List Entry → Type 0 where
  start : Run spec h h []
  step :
      {h' : Hysteresis} {log : List Entry}
      → Run spec h h' log
      → (o : Observation) → Run spec h (observe spec h' o).0 (log ++ (entry spec h' o ∷ []))

-- The number stayed although another was wanted.
abbrev pub IsHeld : Entry → Type 0
IsHeld e = (e.result ≡ e.prev) × ((e.raw <ℤ e.prev) ⊎ (e.prev <ℤ e.raw))

-- The log ends with entries that were held, the first of which wanted less and came at `since`.
pub record WaitsSince (log : List Entry) (since : ℕ) : Type 0 where
  pub early : List Entry
  pub first : Entry
  pub late : List Entry
  pub parts : log ≡ early ++ (first ∷ late)
  pub low : first.raw <ℤ first.prev
  pub at' : first.now ≡ since
  pub held : All IsHeld (first ∷ late)

Inv : ResolvedWorkloadSpec → Hysteresis → List Entry → Type 0
Inv spec h log =
    (since : ℕ) → lookup h.scale_down_since spec.name ≡ some since → WaitsSince log since

append_assoc :
    (xs : List Entry) (y : Entry) (ys zs : List Entry)
    → (xs ++ (y ∷ ys)) ++ zs ≡ xs ++ (y ∷ (ys ++ zs))
append_assoc [] y ys zs = refl
append_assoc (x ∷ xs) y ys zs = ap (λ l. x ∷ l) (append_assoc xs y ys zs)

WaitsSince-append :
    (log : List Entry) (since : ℕ) (e : Entry)
    → WaitsSince log since
    → IsHeld e
    → WaitsSince (log ++ (e ∷ [])) since
WaitsSince-append log since e w k = record {
  early = w.early;
  first = w.first;
  late = w.late ++ (e ∷ []);
  parts = ap (λ l. l ++ (e ∷ [])) w.parts ∙ append_assoc w.early w.first w.late (e ∷ []);
  low = w.low;
  at' = w.at';
  held = (w.held.0, All-append IsHeld w.late (e ∷ []) w.held.1 (k, tt));
}

WaitsSince-here :
    (log : List Entry) (e : Entry)
    → e.raw <ℤ e.prev
    → e.result ≡ e.prev
    → WaitsSince (log ++ (e ∷ [])) e.now
WaitsSince-here log e l r = record {
  early = log;
  first = e;
  late = [];
  parts = refl;
  low = l;
  at' = refl;
  held = ((r, inl l), tt);
}

made : ℤ → ℤ → ℕ → ℤ → Entry
made prev raw now n = record { now = now; prev = prev; raw = raw; result = n }

Decision-Inv :
    {h : Hysteresis} {spec : ResolvedWorkloadSpec} {prev raw : ℤ} {now : ℕ} (r : Hysteresis × ℤ)
    (log : List Entry)
    → Decision h spec prev raw now r
    → Inv spec h log
    → Inv spec r.0 (log ++ (made prev raw now r.1 ∷ []))
unfolding Inv made
Decision-Inv {h} {spec} {prev} {raw} {now} r log (held_up l c) i =
    λ s e. WaitsSince-append log s (made prev raw now prev) (i s e) (refl, inr l)
Decision-Inv {h} {spec} r log (raised l c) i =
    λ s e. absurd (cc (e, lookup-delete_self h.scale_down_since spec.name))
Decision-Inv {h} {spec} {prev} {raw} {now} r log (began l c) i = λ s e.
    subst (WaitsSince (log ++ (made prev raw now prev ∷ [])))
      (some_eq (sym (lookup-insert_self h.scale_down_since spec.name now) ∙ e))
      (WaitsSince-here log (made prev raw now prev) l refl)
Decision-Inv {h} {spec} {prev} {raw} {now} r log (waiting t l c d) i =
    λ s e. WaitsSince-append log s (made prev raw now prev) (i s e) (refl, inl l)
Decision-Inv {h} {spec} r log (lowered t l c d) i =
    λ s e. absurd (cc (e, lookup-delete_self h.scale_down_since spec.name))
Decision-Inv {h} {spec} r log (steady a b) i =
    λ s e. absurd (cc (e, lookup-delete_self h.scale_down_since spec.name))

remember-Inv :
    (spec : ResolvedWorkloadSpec) (log : List Entry) (name : String) (r : Hysteresis × ℤ)
    → Inv spec r.0 log
    → Inv spec (remember name r).0 log
unfolding Inv
remember-Inv spec log name (h, n) i = i

Run-Inv :
    {spec : ResolvedWorkloadSpec} {h h' : Hysteresis} {log : List Entry}
    → lookup h.scale_down_since spec.name ≡ none
    → Run spec h h' log
    → Inv spec h' log
unfolding Inv damped_workers made
Run-Inv fresh start = λ s e. absurd (cc (e, fresh))
Run-Inv {spec} {h} fresh (step {h' = mid} {log = log} run o) =
    let prev = previous mid spec.name o.metrics in
    remember-Inv spec (log ++ (entry spec mid o ∷ [])) spec.name (decide mid spec prev o.raw o.now)
      (Decision-Inv (decide mid spec prev o.raw o.now) log
        (decide-Decision mid spec prev o.raw o.now) (Run-Inv fresh run))

lowered_after :
    {h : Hysteresis} {spec : ResolvedWorkloadSpec} {prev raw : ℤ} {now : ℕ} (r : Hysteresis × ℤ)
    → Decision h spec prev raw now r
    → r.1 <ℤ prev
    → (since : ℕ) × (lookup h.scale_down_since spec.name ≡ some since)
      × (since + down_idle spec ≤ now)
lowered_after r (held_up l c) k = absurd (omega arith)
lowered_after r (raised l c) k = absurd (omega arith)
lowered_after r (began l c) k = absurd (omega arith)
lowered_after r (waiting t l c d) k = absurd (omega arith)
lowered_after r (lowered t l c d) k = (t, c, d)
lowered_after r (steady a b) k = absurd (ground arith)

-- In a run that starts with no wait under way: a decision lowers the number only if the run ends with
-- decisions that were all held back, the first of them because less was wanted, and at least the
-- configured idle time before this one.
pub lowers_after_wait :
    {spec : ResolvedWorkloadSpec} {h h' : Hysteresis} {log : List Entry} (o : Observation)
    → lookup h.scale_down_since spec.name ≡ none
    → Run spec h h' log
    → (observe spec h' o).1 <ℤ previous h' spec.name o.metrics
    → (since : ℕ) × WaitsSince log since × (since + down_idle spec ≤ o.now)
unfolding damped_workers Inv
lowers_after_wait {spec} {h} {h'} o fresh run less =
    let prev = previous h' spec.name o.metrics in
    let (since, e, d) =
      lowered_after (decide h' spec prev o.raw o.now) (decide-Decision h' spec prev o.raw o.now)
        less in
    (since, Run-Inv fresh run since e, d)
