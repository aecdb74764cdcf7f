-- ===== src/Config/Defaulted.antt =====
-- The defaults, which `Validate` accepts whatever the number of CPUs.
use eregion.Prelude.{ℕ, ◌*◌, ◌≤◌, ◌≡◌, refl, true, false, inl, inr, Bool-cases, arith, ltb}
use eregion.Prelude.Int.{ℤ, pos, negsuc, ltb_ℤ}
use eregion.Prelude.Results.{ok, ◌>>=◌}
use eregion.Prelude.Texts.{trim_space, trim_slash}
use eregion.Prelude.Paths.{clean}
use eregion.Config.Types.{Std, Config}
use eregion.Config.Defaults.{bare_default, default_workers, derived_queue_capacity, wrap_int}
use eregion.Config.Paths.{resolve_endpoints}
use eregion.Config.Validation.{validate}
use eregion.Config.Load.{default}

-- Small multiples of a tenth are in order, as float64 rounds them.
pub record OrdersTenths (std : Std) : Type 0 where
  pub below_tenths :
      (a b : ℕ) → a ≤ 20 → b ≤ 20 → std.below (std.of_tenths a) (std.of_tenths b) ≡ ltb a b

pub default_workers-range :
    (cpus : ℤ) → (n : ℕ) × (default_workers cpus ≡ pos n) × (1 ≤ n) × (n ≤ 8)
unfolding default_workers
default_workers-range (negsuc k) = (1, ground arith, omega arith, omega arith)
default_workers-range (pos k) = elim (Bool-cases (ltb 8 k)) [
  | inl e ↦ (8, ground (arith, e), omega arith, omega arith)
  | inr e ↦ elim (Bool-cases (ltb k 1)) [
    | inl f ↦ (1, ground (arith, e, f), omega arith, omega arith)
    | inr f ↦ (k, ground (arith, e, f), ground (arith, f), ground (arith, e))
  ]
]

below_one : (n : ℕ) → 1 ≤ n → ltb_ℤ (pos n) (pos 1) ≡ false
below_one n p = ground arith

not_negative : (n : ℕ) → ltb_ℤ (pos n) (pos 0) ≡ false
not_negative n = ground arith

wrap_int-small : (n : ℕ) → n ≤ 8 → wrap_int (n * 8) ≡ pos (n * 8)
unfolding wrap_int
wrap_int-small n h = ground arith

module _ (std : Std) where
  -- The defaults for so many workers.
  abbrev for_workers : ℕ → Config std.F
  for_workers n =
      let c = bare_default std (pos 1) in
      record c {
        workers = record c.workers { count = pos n };
        queue = record c.queue { capacity = pos (n * 8) };
        metrics = record { enabled = true; path = "/_eregion/metrics" };
        health = record { enabled = true; path = "/_eregion/health" };
        readiness = record { enabled = true; path = "/_eregion/ready" };
        liveness = record { enabled = true; path = "/_eregion/live" };
      }

  default-eq :
      (cpus : ℤ) (n : ℕ)
      → default_workers cpus ≡ pos n
      → 1 ≤ n
      → n ≤ 8
      → default std cpus ≡ for_workers n
  unfolding default resolve_endpoints ◌>>=◌ derived_queue_capacity trim_space trim_slash clean
  default-eq cpus n e p q = rw (e, below_one n p, wrap_int-small n q) refl

  validate-for_workers :
      (o : OrdersTenths std) (n : ℕ) → 1 ≤ n → validate std (for_workers n) ≡ ok (for_workers n)
  unfolding validate ◌>>=◌ trim_space trim_slash clean
  validate-for_workers o n p =
      rw
        (
          below_one n p,
          not_negative (n * 8),
          o.below_tenths 20 10 (omega arith) (omega arith),
          o.below_tenths 2 0 (omega arith) (omega arith),
          o.below_tenths 10 2 (omega arith) (omega arith),
        )
        refl

  -- Whatever number of CPUs the runtime reports, `Validate` accepts the defaults and leaves them as they
  -- are, where float64 orders small tenths.
  pub default-IsAccepted :
      OrdersTenths std → (cpus : ℤ) → validate std (default std cpus) ≡ ok (default std cpus)
  default-IsAccepted o cpus =
      let (n, e, p, q) = default_workers-range cpus in
      rw (default-eq cpus n e p q) (validate-for_workers o n p)
