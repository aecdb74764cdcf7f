-- ===== src/Telemetry/Ready.antt =====
-- The readiness endpoint beside the health endpoint.
use eregion.Prelude.{
  ℕ, ◌+◌, ◌≡◌, ◌≢◌, ◌↔◌, refl, Bool, true, false, ◌||◌, ltb, leb, inl, inr, Bool-cases, arith,
}
use eregion.Worker.Types.{Pool}
use eregion.Worker.Snapshot.{PoolSnapshot, snapshot, healthy_count}
use eregion.Telemetry.Health.{
  Status, unhealthy, status_of, health_handler, ready_code, ready_handler,
}

enough : (c : PoolSnapshot) (m : ℕ) → leb m (healthy_count c) ≡ true → status_of c m ≢ unhealthy
unfolding status_of healthy_count
enough c m h = elim (Bool-cases (ltb (c.idling + c.working + c.leaving) m)) [
  | inl e ↦ absurd (ground (arith, e, h))
  | inr e ↦
      elim (Bool-cases (ltb 0 c.failing || ltb (c.idling + c.working + c.leaving) c.desired)) [
        | inl f ↦ rw (e, f) (λ g. cc)
        | inr f ↦ rw (e, f) (λ g. cc)
      ]
]

too_few : (c : PoolSnapshot) (m : ℕ) → leb m (healthy_count c) ≡ false → status_of c m ≡ unhealthy
unfolding status_of healthy_count
too_few c m h = elim (Bool-cases (ltb (c.idling + c.working + c.leaving) m)) [
  | inl e ↦ rw e refl
  | inr e ↦ absurd (ground (arith, e, h))
]

verdict :
    (shutting stopping well : Bool) (s : Status)
    → (well ≡ true → s ≢ unhealthy)
    → (well ≡ false → s ≡ unhealthy)
    → let code = ready_code shutting stopping well in
      ((code ≡ 200) ↔ ((shutting ≡ false) × (stopping ≡ false) × (s ≢ unhealthy)))
      × (code ≢ 200 → code ≡ 503)
verdict true stopping well s h k =
    ((λ e. absurd (omega (arith, e)), λ r. absurd (cc (r.0))), λ _. refl)
verdict false true well s h k =
    ((λ e. absurd (omega (arith, e)), λ r. absurd (cc (r.1))), λ _. refl)
verdict false false true s h k = ((λ _. (refl, refl, h refl), λ _. refl), λ n. absurd (n refl))
verdict false false false s h k =
    ((λ e. absurd (omega (arith, e)), λ r. absurd (r.2 (k refl))), λ _. refl)

abbrev pub IsReady : Pool → ℕ → ℕ → Bool → Type 0
IsReady pool waiting min_ready shutting =
    (shutting ≡ false)
    × (pool.stopping ≡ false)
    × (health_handler pool waiting min_ready ≢ unhealthy)

-- The readiness endpoint answers 200 just where neither the server nor the pool is stopping and the health
-- endpoint does not say unhealthy, and else 503.
pub ready_handler-health_handler :
    (pool : Pool) (waiting min_ready : ℕ) (shutting : Bool)
    → let code = ready_handler pool waiting min_ready shutting in
      ((code ≡ 200) ↔ IsReady pool waiting min_ready shutting) × (code ≢ 200 → code ≡ 503)
unfolding ready_handler health_handler
ready_handler-health_handler pool waiting min_ready shutting =
    let c = snapshot pool waiting in
    verdict shutting pool.stopping (leb min_ready (healthy_count c)) (status_of c min_ready)
      (enough c min_ready) (too_few c min_ready)
