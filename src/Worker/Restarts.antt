-- ===== src/Worker/Restarts.antt =====
-- internal/worker/pool.go: `recordCrashLocked` and `exceededRestartPolicyLocked`.
-- Times are nanoseconds on one clock; `t.After(now.Add(-window))` is `now < t + window`.
use eregion.Prelude.{
  ℕ, ◌+◌, ◌%◌, ◌^◌, ◌≤◌, ◌≡◌, refl, ◌∙◌, Bool, false, List, [], ◌∷◌, ◌++◌, ltb, ◌==◌, if◌then◌else◌,
  length, keep, keep-append, arith,
}
use mathlib.Core.List.{append_assoc}
use eregion.Worker.Types.{Config, Slot}

abbrev pub in_window : ℕ → ℕ → ℕ → Bool
in_window window now t = ltb now (t + window)

unfoldable pub record_crash : Config → ℕ → Slot → Slot
record_crash cfg now s = record s {
  restart_count = (s.restart_count + 1) % 2 ^ 64;
  restarts = keep (in_window cfg.restart_window now) (s.restarts ++ (now ∷ []));
}

unfoldable pub exceeded_restart_policy : Config → Slot → Bool
exceeded_restart_policy cfg s =
    if cfg.restart_limit == 0 then false else ltb cfg.restart_limit (length s.restarts)

-- The slot after crashes at the given times, the first of them first.
pub crashes : Config → List ℕ → Slot → Slot
crashes cfg [] s = s
crashes cfg (t ∷ ts) s = crashes cfg ts (record_crash cfg t s)

-- Times that do not decrease, from `lo` on.
abbrev pub IsSortedFrom : ℕ → List ℕ → Type 0
IsSortedFrom lo [] = Unit {0}
IsSortedFrom lo (t ∷ ts) = (lo ≤ t) × IsSortedFrom t ts

-- The last of the times, or `d` where there is none.
abbrev pub last_or : ℕ → List ℕ → ℕ
last_or d [] = d
last_or d (t ∷ ts) = last_or t ts

-- Times that have left the window before `lo` stay out of it.
keep_later :
    (w a b : ℕ) (xs : List ℕ)
    → a ≤ b
    → keep (in_window w b) (keep (in_window w a) xs) ≡ keep (in_window w b) xs
keep_later w a b [] h = refl
keep_later w a b (x ∷ xs) h = ground (arith, keep_later w a b xs h)

last_or_le : (t : ℕ) (ts : List ℕ) → IsSortedFrom t ts → t ≤ last_or t ts
last_or_le t [] h = omega arith
last_or_le t (u ∷ ts) h = omega (arith, last_or_le u ts h.1)

-- The pruned list is the window's part of the whole history.
restarts-crashes :
    (cfg : Config) (s : Slot) (t : ℕ) (ts : List ℕ)
    → IsSortedFrom t ts
    → (crashes cfg (t ∷ ts) s).restarts
      ≡ keep (in_window cfg.restart_window (last_or t ts)) (s.restarts ++ (t ∷ ts))
unfolding crashes record_crash
restarts-crashes cfg s t [] h = refl
restarts-crashes cfg s t (u ∷ ts) h =
    restarts-crashes cfg (record_crash cfg t s) u ts h.1
    ∙ rw (
      keep-append (in_window w last) (keep (in_window w t) (s.restarts ++ (t ∷ []))) (u ∷ ts),
      keep_later w t last (s.restarts ++ (t ∷ [])) (omega (arith, last_or_le u ts h.1)),
      ← keep-append (in_window w last) (s.restarts ++ (t ∷ [])) (u ∷ ts),
      append_assoc s.restarts (t ∷ []) (u ∷ ts),
    )
  where
    w : ℕ
    w = cfg.restart_window

    last : ℕ
    last = last_or u ts

-- Whatever crashes a slot has had, at times that do not decrease, its restart policy is exceeded
-- exactly if a limit is set and more than that many of all crashes, those before included, lie
-- within the window that ends at the last one: the pruning on each crash forgets none that counts.
pub exceeded-crashes :
    (cfg : Config) (s : Slot) (t : ℕ) (ts : List ℕ)
    → IsSortedFrom t ts
    → exceeded_restart_policy cfg (crashes cfg (t ∷ ts) s) ≡ (
        if cfg.restart_limit == 0
        then false
        else ltb cfg.restart_limit
            (length (keep (in_window cfg.restart_window (last_or t ts)) (s.restarts ++ (t ∷ ts)))))
unfolding exceeded_restart_policy
exceeded-crashes cfg s t ts h = rw (restarts-crashes cfg s t ts h)
