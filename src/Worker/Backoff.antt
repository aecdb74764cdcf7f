-- ===== src/Worker/Backoff.antt =====
-- internal/worker/backoff.go. float64 and `math.Pow` are an interface, and the number that `rand.Float64`
-- draws is an argument.
use eregion.Prelude.{ℕ, ◌+◌, Bool, if◌then◌else◌}
use eregion.Prelude.Int.{ℤ, pos}
use eregion.Config.Types.{BackoffConfig}
mod Examples
pub mod Within

pub record Floats : Type 1 where
  pub F : Type 0
  pub of_int : ℤ → F
  pub add : F → F → F
  pub sub : F → F → F
  pub mul : F → F → F
  pub pow : F → F → F
  -- `x < y`
  pub less : F → F → Bool
  -- `time.Duration(x)`
  pub to_int : F → ℤ

pub record Backoff (F : Type 0) : Type 0 where
  pub cfg : BackoffConfig F
  pub n : ℕ

abbrev pub new_backoff : {F : Type 0} → BackoffConfig F → Backoff F
new_backoff cfg = record { cfg = cfg; n = 0 }

abbrev pub reset : {F : Type 0} → Backoff F → Backoff F
reset b = record b { n = 0 }

module _ (fl : Floats) where
  abbrev pub below_maximum : BackoffConfig fl.F → fl.F → fl.F
  below_maximum c d = if fl.less (fl.of_int c.maximum) d then fl.of_int c.maximum else d

  abbrev pub factor : BackoffConfig fl.F → fl.F → fl.F
  factor c draw =
      fl.add (fl.of_int (pos 1))
        (fl.mul (fl.sub (fl.mul draw (fl.of_int (pos 2))) (fl.of_int (pos 1))) c.jitter)

  abbrev pub not_below_zero : fl.F → fl.F
  not_below_zero d = if fl.less d (fl.of_int (pos 0)) then fl.of_int (pos 0) else d

  unfoldable pub next : Backoff fl.F → fl.F → ℤ × Backoff fl.F
  next b draw =
      let c = b.cfg in
      let d =
        below_maximum c
          (fl.mul (fl.of_int c.initial) (fl.pow c.multiplier (fl.of_int (pos b.n)))) in
      (
        fl.to_int (
            if fl.less (fl.of_int (pos 0)) c.jitter
            then below_maximum c (not_below_zero (fl.mul d (factor c draw)))
            else d),
        record b { n = b.n + 1 },
      )
