-- ===== src/Telemetry/Counting.antt =====
-- The counters of errors by kind.
use eregion.Prelude.{ℕ, ◌≡◌, ◌≢◌, ap, List, String}
use eregion.Prelude.Maps.{lookup-insert_self, lookup-insert_ne}
use eregion.Telemetry.Registry.{add, or_zero, count_of, bump}

pub count_of-bump_self :
    (m : List (String × ℕ)) (k : String) → count_of (bump m k) k ≡ add (count_of m k) 1
unfolding bump
count_of-bump_self m k = ap or_zero (lookup-insert_self m k (add (count_of m k) 1))

pub count_of-bump_ne :
    (m : List (String × ℕ)) (k j : String) → k ≢ j → count_of (bump m k) j ≡ count_of m j
unfolding bump
count_of-bump_ne m k j h = ap or_zero (lookup-insert_ne m (add (count_of m k) 1) h)
