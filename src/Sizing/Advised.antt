-- ===== src/Sizing/Advised.antt =====
-- What the advice keeps to.
use eregion.Prelude.{
  ℕ, ◌≡◌, ◌↔◌, refl, Bool, true, false, not, inl, inr, Bool-cases, arith, if◌then◌else◌,
}
use eregion.Prelude.Int.{ℤ, pos, ltb_ℤ, ◌≤ℤ◌}
use eregion.Resources.Types.{RuntimeResources}
use eregion.Sizing.Advice.{
  Floats, WorkerSizing, cpu_conservative, balanced, io_optimized, high_oversubscription,
  extreme_oversubscription, at_least_one, available_of, analyze,
}

-- Comparisons of numbers that are not NaN, and products with a positive number, rounded up: they grow
-- with the whole number, as long as they fit an `int`.
pub record IsOrdered (fl : Floats) : Type 1 where
  pub IsNumber : fl.F → Type 0
  pub one : fl.at_most (fl.of_int (pos 1)) (fl.of_int (pos 0)) ≡ false
  pub exceeds_not : (x y : fl.F) → IsNumber x → IsNumber y → fl.exceeds x y ≡ not (fl.at_most x y)
  pub weaken :
      (x : fl.F) (i j : ℤ)
      → i ≤ℤ j
      → fl.at_most x (fl.of_int i) ≡ true
      → fl.at_most x (fl.of_int j) ≡ true
  pub of_int-IsNumber : (i : ℤ) → IsNumber (fl.of_int i)
  pub grows :
      (x : fl.F) (i j : ℤ)
      → fl.at_most x (fl.of_int (pos 0)) ≡ false
      → i ≤ℤ j
      → fl.ceil_int (fl.mul x (fl.of_int i)) ≤ℤ fl.ceil_int (fl.mul x (fl.of_int j))

at_least_one_bound : (n : ℤ) → pos 1 ≤ℤ at_least_one n
at_least_one_bound n = elim (Bool-cases (ltb_ℤ n (pos 1))) [
  | inl e ↦ rw e (omega arith)
  | inr e ↦ rw e (ground arith)
]

at_least_one_grows : (n m : ℤ) → n ≤ℤ m → at_least_one n ≤ℤ at_least_one m
at_least_one_grows n m h = elim (Bool-cases (ltb_ℤ n (pos 1))) [
  | inl e ↦ rw e (at_least_one_bound m)
  | inr e ↦ elim (Bool-cases (ltb_ℤ m (pos 1))) [
    | inl f ↦ absurd (ground arith)
    | inr f ↦ rw (e, f) h
  ]
]

last_class :
    (a b c d : Bool)
    → (a ≡ true → d ≡ true)
    → (b ≡ true → d ≡ true)
    → (c ≡ true → d ≡ true)
    → (not d ≡ true) ↔ (
        (if a
          then cpu_conservative
          else if b
          then balanced
          else if c
          then io_optimized
          else if d
          then high_oversubscription
          else extreme_oversubscription)
        ≡ extreme_oversubscription)
last_class true b c d f g h = rw (f refl) (λ e. absurd (cc e), λ e. absurd (cc e))
last_class false true c d f g h = rw (g refl) (λ e. absurd (cc e), λ e. absurd (cc e))
last_class false false true d f g h = rw (h refl) (λ e. absurd (cc e), λ e. absurd (cc e))
last_class false false false true f g h = (λ e. absurd (cc e), λ e. absurd (cc e))
last_class false false false false f g h = (λ _. refl, λ _. refl)

abbrev IsAdvised : (fl : Floats) → WorkerSizing fl.F → Type 0
IsAdvised fl s =
    (fl.at_most s.available_cpus (fl.of_int (pos 0)) ≡ false)
    × (pos 1 ≤ℤ s.recommended_min)
    × (s.recommended_min ≤ℤ s.recommended_workers)
    × (s.recommended_workers ≤ℤ s.recommended_max)

module _ (fl : Floats) (laws : IsOrdered fl) where
  available_positive :
      (res : RuntimeResources fl.F) → fl.at_most (available_of fl res) (fl.of_int (pos 0)) ≡ false
  available_positive res = ground (arith, laws.one)

  -- The advice starts from a positive number of CPUs, and recommends at least one worker at least, and in
  -- order.
  analyze-IsAdvised : (res : RuntimeResources fl.F) (n : ℤ) → IsAdvised fl (analyze fl res n)
  unfolding analyze
  analyze-IsAdvised res n =
      let positive = available_positive res in
      let whole = λ (k : ℕ). fl.ceil_int (fl.mul (available_of fl res) (fl.of_int (pos k))) in
      (
        positive,
        at_least_one_bound (whole 1),
        at_least_one_grows (whole 1) (whole 2)
            (laws.grows _ (pos 1) (pos 2) positive (omega arith)),
        at_least_one_grows (whole 2) (whole 4)
            (laws.grows _ (pos 2) (pos 4) positive (omega arith)),
      )

  -- There is a warning just in the last class.
  warning-classification :
      (res : RuntimeResources fl.F) (n : ℤ)
      → let s = analyze fl res n in
        laws.IsNumber s.workers_per_cpu
        → (s.warning ≡ true) ↔ (s.classification ≡ extreme_oversubscription)
  unfolding analyze
  warning-classification res n number =
      let x = fl.div (fl.of_int (at_least_one n)) (available_of fl res) in
      let under = λ (i : ℤ) (h : i ≤ℤ pos 8). laws.weaken x i (pos 8) h in
      rw (laws.exceeds_not x (fl.of_int (pos 8)) number (laws.of_int-IsNumber (pos 8))) (
        last_class (fl.at_most x (fl.of_int (pos 1))) (fl.at_most x (fl.of_int (pos 2)))
          (fl.at_most x (fl.of_int (pos 4))) (fl.at_most x (fl.of_int (pos 8)))
          (under (pos 1) (omega arith)) (under (pos 2) (omega arith)) (under (pos 4) (omega arith)))
