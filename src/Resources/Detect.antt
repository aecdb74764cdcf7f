-- ===== src/Resources/Detect.antt =====
-- internal/resources/cgroup_detect.go and detect.go. What the files hold is the argument `read`; that a
-- file cannot be read and that it does not parse differ in the log only.
use eregion.Prelude.{
  is_given, or_else, ℕ, Bool, true, false, not, ◌&&◌, ◌||◌, Option, none, some, [], ◌∷◌, String,
  if◌then◌else◌, ltb, ◌==◌,
}
use eregion.Prelude.Int.{ℤ, pos, ltb_ℤ}
use eregion.Prelude.Results.{Result, ok, fail}
use eregion.Prelude.Texts.{is_empty}
use eregion.Resources.Types.{
  Floats, unset, cgroup_quota, cpuset, combined, gomaxprocs, numcpu, fallback, Environment, host,
  cgroup_v1, cgroup_v2, unknown, RuntimeResources, CpuQuota, CgroupMembership, ParseError,
}
use eregion.Resources.Parse.{
  parse_cpu_max, parse_cfs_quota, parse_memory_max, parse_memory_limit_bytes,
}
use eregion.Resources.CpuSet.{parse_cpu_set}
use eregion.Resources.Membership.{no_membership, parse_self_cgroup}
use eregion.Resources.Place.{join_root, resolve_cgroup_path}

abbrev pub if_found {ℓ κ} : {A : Type ℓ} {B : Type κ} → Option A → (A → Option B) → Option B
if_found none f = none
if_found (some a) f = f a

abbrev pub limit_known : Result ParseError (Option ℕ) → Option ℕ
limit_known (ok limit) = limit
limit_known (fail _) = none

abbrev pub membership_of : Option String → CgroupMembership
membership_of none = no_membership
membership_of (some content) = parse_self_cgroup content

abbrev pub or_cpu : String → String → String
or_cpu rel cpu = if is_empty rel then cpu else rel

module _ (floats : Floats) (read : String → Option String) where
  abbrev pub usable : Result ParseError (CpuQuota floats.F) → Option floats.F
  usable (fail _) = none
  usable (ok q) =
      if not q.limited
      then none
      else if floats.is_nonpositive q.available
      then none
      else some q.available

  abbrev pub read_v2_cpu_at : String → Option floats.F
  read_v2_cpu_at dir =
      if_found (read (join_root (dir ∷ "cpu.max" ∷ [])))
        λ content. usable (parse_cpu_max floats content)

  abbrev pub read_v1_cpu_at : String → Option floats.F
  read_v1_cpu_at dir = if_found (read (join_root (dir ∷ "cpu.cfs_quota_us" ∷ []))) λ quota.
      if_found (read (join_root (dir ∷ "cpu.cfs_period_us" ∷ [])))
        λ period. usable (parse_cfs_quota floats quota period)

  abbrev pub counted : Result ParseError ℕ → Option floats.F
  counted (fail _) = none
  counted (ok n) = if ltb 0 n then some (floats.of_int (pos n)) else none

  abbrev pub read_candidate : String → Option floats.F
  read_candidate path = if_found (read path) λ content. counted (parse_cpu_set content)

  abbrev pub read_cpu_set_at : String → Option floats.F
  read_cpu_set_at dir =
      or_else (read_candidate (join_root (dir ∷ "cpuset.cpus.effective" ∷ [])))
        (read_candidate (join_root (dir ∷ "cpuset.cpus" ∷ [])))

  abbrev pub read_memory_v2 : String → Option ℕ
  read_memory_v2 dir =
      if_found (read (join_root (dir ∷ "memory.max" ∷ [])))
        λ content. limit_known (parse_memory_max content)

  abbrev pub read_memory_v1 : String → Option ℕ
  read_memory_v1 dir =
      if_found (read (join_root (dir ∷ "memory.limit_in_bytes" ∷ [])))
        λ content. limit_known (parse_memory_limit_bytes content)

  -- The leaf, if its path stays under the root, and then the root.
  abbrev pub leaf_then_root {ℓ} : {A : Type ℓ} → (String → Option A) → String → String → Option A
  leaf_then_root at root path = or_else (if_found (resolve_cgroup_path root path) at) (at root)

  abbrev pub leaf_if_named {ℓ} : {A : Type ℓ} → (String → Option A) → String → String → Option A
  leaf_if_named at root path =
      let with_leaf = leaf_then_root at root path in if is_empty path then at root else with_leaf

  abbrev pub under : String → String → String
  under root name = join_root (root ∷ name ∷ [])

  -- The quota, and whether the code has seen version 2 and version 1.
  unfoldable pub quota_of : String → CgroupMembership → Option floats.F × Bool × Bool
  quota_of root m =
      let v2 = read_v2_cpu_at root in
      let v1 = read_v1_cpu_at (under root "cpu") in
      if m.version == 2
      then (leaf_then_root read_v2_cpu_at root m.unified, true, false)
      else if (m.version == 1) && not (is_empty m.cpu)
      then (leaf_then_root read_v1_cpu_at (under root "cpu") m.cpu, false, true)
      else if is_given v2
      then (v2, true, false)
      else if is_given v1
      then (v1, false, true)
      else (none, false, false)

  unfoldable pub cpu_set_of : String → CgroupMembership → Option floats.F × Bool × Bool
  cpu_set_of root m =
      let at_root = read_cpu_set_at root in
      let at_cpuset = read_cpu_set_at (under root "cpuset") in
      if m.version == 2
      then (leaf_then_root read_cpu_set_at root m.unified, true, false)
      else if m.version == 1
      then (
        leaf_if_named read_cpu_set_at (under root "cpuset") (or_cpu m.cpu_set m.cpu),
        false,
        true,
      )
      else if is_given at_root
      then (at_root, true, false)
      else if is_given at_cpuset
      then (at_cpuset, false, true)
      else (none, false, false)

  unfoldable pub read_memory_effective : String → CgroupMembership → Option ℕ
  read_memory_effective root m =
      if m.version == 2
      then leaf_then_root read_memory_v2 root m.unified
      else if m.version == 1
      then leaf_if_named read_memory_v1 (under root "memory") (or_cpu m.memory m.cpu)
      else or_else (read_memory_v2 root) (read_memory_v1 (under root "memory"))

  abbrev pub min_positive : floats.F → floats.F → floats.F
  min_positive a b =
      if floats.is_positive a && floats.is_positive b
      then (if floats.less a b then a else b)
      else if floats.is_positive a
      then a
      else b

  abbrev pub set_cpus :
      RuntimeResources floats.F → Option floats.F → Option floats.F → RuntimeResources floats.F
  set_cpus r none none = r
  set_cpus r (some quota) (some cpus) = record r {
    available_cpus = min_positive quota cpus;
    cpu_quota_detected = true;
    cpu_set_detected = true;
    cpu_source = combined;
  }
  set_cpus r (some quota) none = record r {
    available_cpus = quota;
    cpu_quota_detected = true;
    cpu_set_detected = false;
    cpu_source = cgroup_quota;
  }
  set_cpus r none (some cpus) = record r {
    available_cpus = cpus;
    cpu_quota_detected = false;
    cpu_set_detected = true;
    cpu_source = cpuset;
  }

  abbrev pub set_environment :
      RuntimeResources floats.F → CgroupMembership → Bool → Bool → RuntimeResources floats.F
  set_environment r m saw_v2 saw_v1 =
      if (m.version == 2) || saw_v2
      then record r { environment = cgroup_v2; cgroup_version = 2 }
      else if (m.version == 1) || saw_v1
      then record r { environment = cgroup_v1; cgroup_version = 1 }
      else record r { environment = host; cgroup_version = 0 }

  abbrev pub set_memory : RuntimeResources floats.F → Option ℕ → RuntimeResources floats.F
  set_memory r none = r
  set_memory r (some limit) = record r { memory_limit_bytes = limit; memory_limit_known = true }

  abbrev pub set_found :
      RuntimeResources floats.F
      → CgroupMembership
      → Option floats.F × Bool × Bool
      → Option floats.F × Bool × Bool
      → Option ℕ
      → RuntimeResources floats.F
  set_found r m (quota, quota_v2, quota_v1) (cpus, cpus_v2, cpus_v1) limit =
      set_memory
        (set_environment (set_cpus r quota cpus) m (quota_v2 || cpus_v2) (quota_v1 || cpus_v1))
        limit

  unfoldable pub apply_cgroup_detection :
      String → RuntimeResources floats.F → RuntimeResources floats.F
  unfolding quota_of cpu_set_of read_memory_effective
  apply_cgroup_detection given_root r =
      let root = join_root (given_root ∷ []) in
      let m = membership_of (read "/proc/self/cgroup") in
      if is_empty given_root
      then r
      else set_found r m (quota_of root m) (cpu_set_of root m) (read_memory_effective root m)

  unfoldable pub apply_cpu_fallbacks : RuntimeResources floats.F → RuntimeResources floats.F
  apply_cpu_fallbacks r =
      if floats.is_positive r.available_cpus
      then r
      else if ltb_ℤ (pos 0) r.gomaxprocs
      then record r {
        available_cpus = floats.of_int r.gomaxprocs;
        cpu_quota_detected = false;
        cpu_source = gomaxprocs;
      }
      else if ltb_ℤ (pos 0) r.logical_cpus
      then record r {
        available_cpus = floats.of_int r.logical_cpus;
        cpu_quota_detected = false;
        cpu_source = numcpu;
      }
      else record r {
        available_cpus = floats.of_int (pos 1);
        cpu_quota_detected = false;
        cpu_source = fallback;
      }

  abbrev pub initially : ℤ → ℤ → RuntimeResources floats.F
  initially cpus procs = record {
    logical_cpus = if ltb_ℤ cpus (pos 1) then pos 1 else cpus;
    available_cpus = floats.of_int (pos 0);
    gomaxprocs = procs;
    cpu_quota_detected = false;
    cpu_set_detected = false;
    cpu_source = unset;
    memory_limit_bytes = 0;
    memory_limit_known = false;
    environment = unknown;
    cgroup_version = 0;
  }

  abbrev pub cgroup_root : String → String
  cgroup_root given = if is_empty given then "/sys/fs/cgroup" else given

  abbrev pub is_unknown : Environment → Bool
  is_unknown unknown = true
  is_unknown _ = false

  -- internal/resources/linux.go
  unfoldable pub platform_detect : String → RuntimeResources floats.F → RuntimeResources floats.F
  unfolding apply_cgroup_detection
  platform_detect given r =
      let found = apply_cgroup_detection (cgroup_root given) r in
      if not (is_unknown found.environment)
      then found
      else if floats.is_positive found.available_cpus
          && (found.cpu_quota_detected || found.cpu_set_detected)
      then found
      else record found { environment = host }

  -- `Detect` on Linux, with the numbers that the runtime reports.
  unfoldable pub detect : String → ℤ → ℤ → RuntimeResources floats.F
  unfolding platform_detect apply_cpu_fallbacks
  detect root cpus procs = apply_cpu_fallbacks (platform_detect root (initially cpus procs))
