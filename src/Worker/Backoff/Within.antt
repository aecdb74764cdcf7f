-- ===== src/Worker/Backoff/Within.antt =====
-- The bounds of the delays.
use eregion.Prelude.{ℕ, ◌^◌, ◌≡◌, ◌≤◌, true, false, inl, inr, Bool-cases, arith}
use eregion.Prelude.Int.{ℤ, pos, ◌≤ℤ◌}
use eregion.Config.Types.{BackoffConfig}
use eregion.Worker.Backoff.{Floats, Backoff, below_maximum, factor, not_below_zero, next}

-- What IEEE 754 and the Go specification say of these operations: conversions of integers keep the order,
-- and a number between 0 and an integer that float64 holds exactly is cut to an integer between the two.
-- `IsNumber` is not to be NaN, `IsFinite` not to be infinite either.
pub record IsIeee (fl : Floats) : Type 1 where
  pub IsNumber : fl.F → Type 0
  pub IsFinite : fl.F → Type 0
  pub of_int-IsNumber : (i : ℤ) → IsNumber (fl.of_int i)
  pub ordered : (i j : ℤ) → i ≤ℤ j → fl.less (fl.of_int j) (fl.of_int i) ≡ false
  pub pow_above_one :
      (x : fl.F) (k : ℕ)
      → IsNumber x
      → fl.less x (fl.of_int (pos 1)) ≡ false
      → IsNumber (fl.pow x (fl.of_int (pos k)))
        × (fl.less (fl.pow x (fl.of_int (pos k))) (fl.of_int (pos 1)) ≡ false)
  pub mul_above_one :
      (i : ℤ) (x : fl.F)
      → pos 1 ≤ℤ i
      → IsNumber x
      → fl.less x (fl.of_int (pos 1)) ≡ false
      → IsNumber (fl.mul (fl.of_int i) x)
        × (fl.less (fl.mul (fl.of_int i) x) (fl.of_int (pos 0)) ≡ false)
  pub between-IsFinite :
      (x : fl.F) (i : ℤ)
      → IsNumber x
      → fl.less x (fl.of_int (pos 0)) ≡ false
      → fl.less (fl.of_int i) x ≡ false
      → IsFinite x
  pub mul-IsNumber : (x y : fl.F) → IsFinite x → IsFinite y → IsNumber (fl.mul x y)
  pub cut_within :
      (x : fl.F) (m : ℕ)
      → m ≤ 2 ^ 53
      → IsNumber x
      → fl.less x (fl.of_int (pos 0)) ≡ false
      → fl.less (fl.of_int (pos m)) x ≡ false
      → (pos 0 ≤ℤ fl.to_int x) × (fl.to_int x ≤ℤ pos m)
  -- With a draw from [0, 1) and a jitter up to 1 the factor is from [0, 2].
  pub factor-IsFinite :
      (c : BackoffConfig fl.F) (draw : fl.F)
      → IsNumber draw
      → fl.less draw (fl.of_int (pos 0)) ≡ false
      → fl.less draw (fl.of_int (pos 1)) ≡ true
      → fl.less (fl.of_int (pos 0)) c.jitter ≡ true
      → fl.less (fl.of_int (pos 1)) c.jitter ≡ false
      → IsFinite (factor fl c draw)

module _ (fl : Floats) (laws : IsIeee fl) where
  abbrev IsAtLeastZero : fl.F → Type 0
  IsAtLeastZero x = laws.IsNumber x × (fl.less x (fl.of_int (pos 0)) ≡ false)

  abbrev IsCapped : ℕ → fl.F → Type 0
  IsCapped m x = IsAtLeastZero x × (fl.less (fl.of_int (pos m)) x ≡ false)

  below_maximum-IsCapped :
      (c : BackoffConfig fl.F) (m : ℕ) (x : fl.F)
      → c.maximum ≡ pos m
      → IsAtLeastZero x
      → IsCapped m (below_maximum fl c x)
  below_maximum-IsCapped c m x e h = elim (Bool-cases (fl.less (fl.of_int c.maximum) x)) [
    | inl over ↦
        rw (over, e)
          (
            (laws.of_int-IsNumber (pos m), laws.ordered (pos 0) (pos m) (omega arith)),
            laws.ordered (pos m) (pos m) (omega arith),
          )
    | inr under ↦ rw under (h, rw e at under)
  ]

  not_below_zero-IsAtLeastZero : (x : fl.F) → laws.IsNumber x → IsAtLeastZero (not_below_zero fl x)
  not_below_zero-IsAtLeastZero x h = elim (Bool-cases (fl.less x (fl.of_int (pos 0)))) [
    | inl under ↦
        rw under (laws.of_int-IsNumber (pos 0), laws.ordered (pos 0) (pos 0) (omega arith))
    | inr e ↦ rw e (h, e)
  ]

  -- The delay is between 0 and the maximum whatever the number of failures and the draw, if the initial
  -- delay is positive, the multiplier a number from 1 on, the jitter at most 1 and the maximum at most
  -- 2^53 nanoseconds.
  pub next-IsWithin :
      (b : Backoff fl.F) (draw : fl.F) (m : ℕ)
      → b.cfg.maximum ≡ pos m
      → m ≤ 2 ^ 53
      → pos 1 ≤ℤ b.cfg.initial
      → laws.IsNumber b.cfg.multiplier
      → fl.less b.cfg.multiplier (fl.of_int (pos 1)) ≡ false
      → fl.less (fl.of_int (pos 1)) b.cfg.jitter ≡ false
      → laws.IsNumber draw
      → fl.less draw (fl.of_int (pos 0)) ≡ false
      → fl.less draw (fl.of_int (pos 1)) ≡ true
      → (pos 0 ≤ℤ (next fl b draw).0) × ((next fl b draw).0 ≤ℤ pos m)
  unfolding next
  next-IsWithin b draw m e small i k ge j nd lo hi =
      let c = b.cfg in
      let (np, gp) = laws.pow_above_one c.multiplier b.n k ge in
      let d = fl.mul (fl.of_int c.initial) (fl.pow c.multiplier (fl.of_int (pos b.n))) in
      let ((n, z), u) = below_maximum-IsCapped c m d e (laws.mul_above_one c.initial _ i np gp) in
      elim (Bool-cases (fl.less (fl.of_int (pos 0)) c.jitter)) [
        | inl on ↦
            let product =
              laws.mul-IsNumber _ (factor fl c draw)
                (laws.between-IsFinite (below_maximum fl c d) (pos m) n z u)
                (laws.factor-IsFinite c draw nd lo hi on j) in
            let ((nj, zj), uj) =
              below_maximum-IsCapped c m _ e (not_below_zero-IsAtLeastZero _ product) in
            rw on (laws.cut_within _ m small nj zj uj)
        | inr off ↦ rw off (laws.cut_within _ m small n z u)
      ]
