-- ===== src/Worker/Backoff/Examples.antt =====
-- Whole numbers in place of floats, without those below 0.
use eregion.Prelude.{ℕ, zero, suc, ◌+◌, ◌-◌, ◌*◌, ◌≡◌, refl, false, arith, ltb}
use eregion.Prelude.Int.{pos, pos_part, ◌≤ℤ◌}
use eregion.Config.Types.{BackoffConfig}
use eregion.Worker.Backoff.{Floats, Backoff, reset, next}
use eregion.Worker.Backoff.Within.{IsIeee, next-IsWithin}

abbrev power : ℕ → ℕ → ℕ
power x zero = 1
power x (suc k) = power x k * x

power_positive : (x k : ℕ) → ltb x 1 ≡ false → ltb (power x k) 1 ≡ false
power_positive x zero h = refl
power_positive zero (suc k) h = absurd (ground arith)
power_positive (suc x) (suc k) h = let ih = power_positive (suc x) k h in ground arith

abbrev toy : Floats
toy = record {
  F = ℕ;
  of_int = pos_part;
  add = λ a b. a + b;
  sub = λ a b. a - b;
  mul = λ a b. a * b;
  pow = power;
  less = ltb;
  to_int = pos;
}

abbrev toy_laws : IsIeee toy
toy_laws = record {
  IsNumber = λ _. Unit;
  IsFinite = λ _. Unit;
  of_int-IsNumber = λ _. tt;
  ordered = λ i j h. ground arith;
  pow_above_one = λ x k _ h. (tt, power_positive x k h);
  mul_above_one = λ i x _ _ _. (tt, ground arith);
  between-IsFinite = λ _ _ _ _ _. tt;
  mul-IsNumber = λ _ _ _ _. tt;
  cut_within = λ x m _ _ _ h. (ground arith, ground arith);
  factor-IsFinite = λ _ _ _ _ _ _ _. tt;
}

abbrev cfg : BackoffConfig ℕ
cfg = record { initial = pos 3; maximum = pos 20; multiplier = 2; jitter = 1 }

abbrev failing : Backoff ℕ
failing = record { cfg = cfg; n = 4 }

next-IsWithin_example : (pos 0 ≤ℤ (next toy failing 0).0) × ((next toy failing 0).0 ≤ℤ pos 20)
next-IsWithin_example =
    next-IsWithin toy toy_laws failing 0 20 refl (omega arith) (omega arith) tt refl refl tt refl
      refl

capped : (next toy failing 0).0 ≡ pos 20
unfolding next
capped = refl

again : (next toy (reset failing) 0).0 ≡ pos 3
unfolding next
again = refl
