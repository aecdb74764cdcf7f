-- ===== src/Resources/Found.antt =====
-- What the detection takes over from the files.
use eregion.Prelude.{
  ℕ, ◌<◌, ◌≡◌, refl, ap, ◌∙◌, Bool, true, false, not, ◌||◌, ◌&&◌, Option, none, some, [], ◌∷◌,
  String, inl, inr, Bool-cases, ◌==◌, if◌then◌else◌,
}
use eregion.Prelude.Int.{ℤ, pos, ltb_ℤ}
use eregion.Prelude.Texts.{is_empty}
use eregion.Resources.Types.{
  Floats, CpuSource, unset, cgroup_quota, cpuset, combined, gomaxprocs, numcpu, RuntimeResources,
  CgroupMembership,
}
use eregion.Resources.Detect.{
  set_found, set_cpus, set_environment, set_memory, quota_of, cpu_set_of, read_memory_effective,
  membership_of, apply_cgroup_detection, cgroup_root, is_unknown, platform_detect, initially,
  min_positive,
}
use eregion.Resources.Evidence.{IsQuota, IsCpuCount}
use eregion.Resources.Place.{join_root}

-- Of float64: the counts of CPUs above 0 are positive, and 0 is not.
pub record HasCounts (floats : Floats) : Type 0 where
  pub positive : (n : ℕ) → 0 < n → floats.is_positive (floats.of_int (pos n)) ≡ true
  pub zero : floats.is_positive (floats.of_int (pos 0)) ≡ false

abbrev pub logical : ℤ → ℤ
logical cpus = if ltb_ℤ cpus (pos 1) then pos 1 else cpus

module _ (floats : Floats) (read : String → Option String) where
  -- Every quota that a file gives is positive: it is above 0, and so is if it is a number at all.
  abbrev pub AreNumbers : Type 0
  AreNumbers = (x : floats.F) → IsQuota floats read x → floats.is_positive x ≡ true

  -- The number, the two flags and the source.
  abbrev pub Says : RuntimeResources floats.F → floats.F → Bool → Bool → CpuSource → Type 0
  Says r x quota set source =
      (r.available_cpus ≡ x)
      × (r.cpu_quota_detected ≡ quota)
      × (r.cpu_set_detected ≡ set)
      × (r.cpu_source ≡ source)

  -- Where the number comes from.
  pub data Source (cpus procs : ℤ) (r : RuntimeResources floats.F) : Type 0 where
    by_quota :
        (x : floats.F)
        → IsQuota floats read x
        → Says r x true false cgroup_quota
        → Source cpus procs r
    by_set :
        (x : floats.F) → IsCpuCount floats read x → Says r x false true cpuset → Source cpus procs r
    by_both :
        (x y : floats.F)
        → IsQuota floats read x
        → IsCpuCount floats read y
        → Says r (if floats.less x y then x else y) true true combined
        → Source cpus procs r
    by_procs :
        ltb_ℤ (pos 0) procs ≡ true
        → Says r (floats.of_int procs) false false gomaxprocs
        → Source cpus procs r
    by_cpus :
        ltb_ℤ (pos 0) procs ≡ false
        → Says r (floats.of_int (logical cpus)) false false numcpu
        → Source cpus procs r

  -- What the files have come to, before the fallbacks.
  abbrev pub Found : ℤ → ℤ → Option floats.F → Option floats.F → RuntimeResources floats.F → Type 0
  Found cpus procs none none r =
      Says r (floats.of_int (pos 0)) false false unset
      × (r.gomaxprocs ≡ procs)
      × (r.logical_cpus ≡ logical cpus)
  Found cpus procs (some x) none r = Says r x true false cgroup_quota
  Found cpus procs none (some y) r = Says r y false true cpuset
  Found cpus procs (some x) (some y) r = Says r (min_positive floats read x y) true true combined

  pub set_cpus-Found :
      (cpus procs : ℤ) (q c : Option floats.F)
      → Found cpus procs q c (set_cpus floats read (initially floats read cpus procs) q c)
  set_cpus-Found cpus procs none none = ((refl, refl, refl, refl), refl, refl)
  set_cpus-Found cpus procs (some x) none = (refl, refl, refl, refl)
  set_cpus-Found cpus procs none (some y) = (refl, refl, refl, refl)
  set_cpus-Found cpus procs (some x) (some y) = (refl, refl, refl, refl)

  -- The fields that `Found` speaks of.
  abbrev pub View : Type 0
  View = floats.F × Bool × Bool × CpuSource × ℤ × ℤ

  abbrev pub view : RuntimeResources floats.F → View
  view r = (
    r.available_cpus, r.cpu_quota_detected, r.cpu_set_detected, r.cpu_source, r.gomaxprocs,
    r.logical_cpus,
  )

  Says-view :
      (r t : RuntimeResources floats.F) (x : floats.F) (q c : Bool) (s : CpuSource)
      → view r ≡ view t
      → Says t x q c s
      → Says r x q c s
  Says-view r t x q c s e (a, b, d, f) = (
    ap (λ (v : View). v.0) e ∙ a,
    ap (λ (v : View). v.1) e ∙ b,
    ap (λ (v : View). v.2) e ∙ d,
    ap (λ (v : View). v.3) e ∙ f,
  )

  pub Found-view :
      (cpus procs : ℤ) (q c : Option floats.F) (r t : RuntimeResources floats.F)
      → view r ≡ view t
      → Found cpus procs q c t
      → Found cpus procs q c r
  Found-view cpus procs none none r t e (s, g, l) =
      (Says-view r t _ _ _ _ e s, ap (λ (v : View). v.4) e ∙ g, ap (λ (v : View). v.5) e ∙ l)
  Found-view cpus procs (some x) none r t e s = Says-view r t _ _ _ _ e s
  Found-view cpus procs none (some y) r t e s = Says-view r t _ _ _ _ e s
  Found-view cpus procs (some x) (some y) r t e s = Says-view r t _ _ _ _ e s

  view-set_memory :
      (r : RuntimeResources floats.F) (limit : Option ℕ)
      → view (set_memory floats read r limit) ≡ view r
  view-set_memory r none = refl
  view-set_memory r (some n) = refl

  view-set_environment :
      (r : RuntimeResources floats.F) (m : CgroupMembership) (a b : Bool)
      → view (set_environment floats read r m a b) ≡ view r
  view-set_environment r m a b = elim (Bool-cases ((m.version == 2) || a)) [
    | inl e ↦ rw e refl
    | inr e ↦ elim (Bool-cases ((m.version == 1) || b)) [
      | inl f ↦ rw (e, f) refl
      | inr f ↦ rw (e, f) refl
    ]
  ]

  view-set_found :
      (r : RuntimeResources floats.F) (m : CgroupMembership)
      (quota cpus : Option floats.F × Bool × Bool) (limit : Option ℕ)
      → view (set_found floats read r m quota cpus limit)
        ≡ view (set_cpus floats read r quota.0 cpus.0)
  view-set_found r m (q, a, b) (c, d, e) limit =
      let s = set_cpus floats read r q c in
      view-set_memory (set_environment floats read s m (a || d) (b || e)) limit
      ∙ view-set_environment s m (a || d) (b || e)

  -- The directory at the top, and what the process's own file says.
  abbrev pub top : String → String
  top given = join_root (cgroup_root floats read given ∷ [])

  abbrev pub own : CgroupMembership
  own = membership_of (read "/proc/self/cgroup")

  abbrev pub quota_found : String → Option floats.F
  quota_found given = (quota_of floats read (top given) own).0

  abbrev pub set_found_in : String → Option floats.F
  set_found_in given = (cpu_set_of floats read (top given) own).0

  root_given : (given : String) → is_empty (cgroup_root floats read given) ≡ false
  root_given given = elim (Bool-cases (is_empty given)) [ inl e ↦ rw e refl | inr e ↦ rw e e ]

  view-apply_cgroup_detection :
      (given : String) (r : RuntimeResources floats.F)
      → view (apply_cgroup_detection floats read (cgroup_root floats read given) r)
        ≡ view (set_cpus floats read r (quota_found given) (set_found_in given))
  unfolding apply_cgroup_detection
  view-apply_cgroup_detection given r = rw (root_given given) (
      view-set_found r own (quota_of floats read (top given) own)
        (cpu_set_of floats read (top given) own)
        (read_memory_effective floats read (top given) own))

  pub view-platform_detect :
      (given : String) (r : RuntimeResources floats.F)
      → view (platform_detect floats read given r)
        ≡ view (set_cpus floats read r (quota_found given) (set_found_in given))
  unfolding platform_detect
  view-platform_detect given r =
      let found = apply_cgroup_detection floats read (cgroup_root floats read given) r in
      let y = view-apply_cgroup_detection given r in
      elim (Bool-cases (not (is_unknown floats read found.environment))) [
        | inl e ↦ rw e y
        | inr e ↦
            elim (Bool-cases (
              floats.is_positive found.available_cpus
              && (found.cpu_quota_detected || found.cpu_set_detected))) [
                | inl f ↦ rw (e, f) y
                | inr f ↦ rw (e, f) y
              ]
      ]
