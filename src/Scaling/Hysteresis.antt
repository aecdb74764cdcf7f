-- ===== src/Scaling/Hysteresis.antt =====
-- internal/scaling/hysteresis.go: `DesiredWorkers`, for the number `raw` that the inner strategy
-- gives. Times are nanoseconds of the monotonic clock; the zero time is `none`.
use eregion.Prelude.{
  ℕ, ◌+◌, Bool, false, Option, none, some, List, [], if◌then◌else◌, ltb, ◌==◌, String,
}
use eregion.Prelude.Int.{ℤ, pos, negsuc, ltb_ℤ, pos_part}
use eregion.Prelude.Maps.{lookup, insert, delete}
use eregion.Workload.Model.{ResolvedWorkloadSpec, WorkloadMetrics, seconds}

pub record Hysteresis : Type 0 where
  pub last_scale_up : Option ℕ
  pub scale_down_since : List (String × ℕ)
  pub last_desired : List (String × ℤ)

abbrev pub new_hysteresis : Hysteresis
new_hysteresis = record { last_scale_up = none; scale_down_since = []; last_desired = [] }

abbrev pub is_zero : ℤ → Bool
is_zero (pos n) = n == 0
is_zero (negsuc _) = false

abbrev pub or_current : Option ℤ → ℤ → ℤ
or_current none current = current
or_current (some p) current = p

-- The number that the workload was last given.
abbrev pub previous : Hysteresis → String → WorkloadMetrics → ℤ
previous h name metrics =
    or_current (lookup h.last_desired name)
      (if is_zero metrics.desired then metrics.running else metrics.desired)

abbrev pub or_default : ℤ → ℕ → ℕ
or_default d default = if ltb_ℤ (pos 0) d then pos_part d else default

abbrev pub up_cooldown : ResolvedWorkloadSpec → ℕ
up_cooldown spec = or_default spec.scaling.scale_up_cooldown (pos_part (seconds 1))

abbrev pub down_idle : ResolvedWorkloadSpec → ℕ
down_idle spec = or_default spec.scaling.scale_down_idle_for (pos_part (seconds 30))

-- Whether less than `wait` has passed since `t`.
abbrev pub is_recent : Option ℕ → ℕ → ℕ → Bool
is_recent none wait now = false
is_recent (some t) wait now = ltb now (t + wait)

-- More is wanted.
unfoldable pub scale_up : Hysteresis → ResolvedWorkloadSpec → ℤ → ℤ → ℕ → Hysteresis × ℤ
scale_up h spec prev raw now =
    if is_recent h.last_scale_up (up_cooldown spec) now then (h, prev) else (
      record h { last_scale_up = some now; scale_down_since = delete h.scale_down_since spec.name },
      raw,
    )

-- Less is wanted; `since` is when that began.
unfoldable pub scale_down :
    Hysteresis → ResolvedWorkloadSpec → ℤ → ℤ → ℕ → Option ℕ → Hysteresis × ℤ
scale_down h spec prev raw now none =
    (record h { scale_down_since = insert h.scale_down_since spec.name now }, prev)
scale_down h spec prev raw now (some since) =
    if ltb now (since + down_idle spec)
    then (h, prev)
    else (record h { scale_down_since = delete h.scale_down_since spec.name }, raw)

unfoldable pub decide : Hysteresis → ResolvedWorkloadSpec → ℤ → ℤ → ℕ → Hysteresis × ℤ
unfolding scale_up scale_down
decide h spec prev raw now =
    if ltb_ℤ prev raw
    then scale_up h spec prev raw now
    else if ltb_ℤ raw prev
    then scale_down h spec prev raw now (lookup h.scale_down_since spec.name)
    else (record h { scale_down_since = delete h.scale_down_since spec.name }, raw)

abbrev pub remember : String → Hysteresis × ℤ → Hysteresis × ℤ
remember name (h, n) = (record h { last_desired = insert h.last_desired name n }, n)

unfoldable pub damped_workers :
    Hysteresis → ResolvedWorkloadSpec → WorkloadMetrics → ℤ → ℕ → Hysteresis × ℤ
unfolding decide
damped_workers h spec metrics raw now =
    remember spec.name (decide h spec (previous h spec.name metrics) raw now)
