-- ===== src/Sizing/Examples.antt =====
-- The advice for whole numbers of CPUs, and classes by the number of workers on one.
use eregion.Prelude.{ℕ, ◌*◌, ◌≡◌, refl, true, false, leb, ltb}
use eregion.Prelude.Int.{pos, negsuc, pos_part}
use eregion.Resources.Types.{unset, host, RuntimeResources}
use eregion.Sizing.Advice.{Floats, balanced, extreme_oversubscription, classify, analyze}

abbrev toy : Floats
toy = record {
  F = ℕ;
  of_int = pos_part;
  mul = λ a b. a * b;
  div = λ a b. a;
  at_most = leb;
  exceeds = λ a b. ltb b a;
  ceil_int = pos;
}

abbrev nothing_found : RuntimeResources ℕ
nothing_found = record {
  logical_cpus = negsuc 0;
  available_cpus = 0;
  gomaxprocs = pos 0;
  cpu_quota_detected = false;
  cpu_set_detected = false;
  cpu_source = unset;
  memory_limit_bytes = 0;
  memory_limit_known = false;
  environment = host;
  cgroup_version = 0;
}

one_cpu : (analyze toy nothing_found (pos 2)).recommended_max ≡ pos 4
unfolding analyze
one_cpu = refl

warned : (analyze toy nothing_found (pos 9)).warning ≡ true
unfolding analyze
warned = refl

balanced_at_two : classify toy 2 ≡ balanced
balanced_at_two = refl

extreme_at_nine : classify toy 9 ≡ extreme_oversubscription
extreme_at_nine = refl
