-- ===== src/Resources/Detected.antt =====
-- What the detection says of the CPUs, and why.
use native.Mathlib.Decide.{ℕ_discrete}
use eregion.Prelude.{
  is_given, ◌≡◌, ◌≢◌, refl, ap, ◌∙◌, true, Option, none, some, String, inl, inr, ◌⊎◌, Bool-cases,
  arith, if◌then◌else◌,
}
use eregion.Prelude.Int.{ℤ, pos, negsuc, ltb_ℤ}
use eregion.Resources.Types.{Floats, RuntimeResources}
use eregion.Resources.Detect.{
  set_cpus, apply_cpu_fallbacks, platform_detect, initially, detect, min_positive,
}
use eregion.Resources.Evidence.{
  IsQuota, IsCpuCount, GivesV2, GivesSet, quota_of-IsQuota, cpu_set_of-IsCpuCount,
}
use eregion.Resources.Inside.{IsInside, quota_of-given, cpu_set_of-given}
use eregion.Resources.Found.{
  HasCounts, logical, AreNumbers, Source, by_quota, by_set, by_both, by_procs, by_cpus, Found,
  set_cpus-Found, Found-view, top, own, quota_found, set_found_in, view-platform_detect,
}

logical_pos : (cpus : ℤ) → ltb_ℤ (pos 0) (logical cpus) ≡ true
logical_pos (pos n) = ground arith
logical_pos (negsuc n) = ground arith

count_positive :
    {floats : Floats}
    → HasCounts floats
    → (n : ℤ) → ltb_ℤ (pos 0) n ≡ true
    → floats.is_positive (floats.of_int n) ≡ true
count_positive h (pos n) e = h.positive n (ground (arith, e))
count_positive h (negsuc n) e = absurd (ground (arith, e))

module _ (floats : Floats) (read : String → Option String) where
  IsCpuCount-positive :
      HasCounts floats → (x : floats.F) → IsCpuCount floats read x → floats.is_positive x ≡ true
  IsCpuCount-positive h x (dir, inl l) = ap floats.is_positive l.value ∙ h.positive l.number l.any
  IsCpuCount-positive h x (dir, inr l) = ap floats.is_positive l.value ∙ h.positive l.number l.any

  less_positive :
      (x y : floats.F)
      → floats.is_positive x ≡ true
      → floats.is_positive y ≡ true
      → floats.is_positive (if floats.less x y then x else y) ≡ true
  less_positive x y p q = elim (Bool-cases (floats.less x y)) [ inl e ↦ rw e p | inr e ↦ rw e q ]

  -- What the fallbacks leave of a result.
  record Done (cpus procs : ℤ) (q c : Option floats.F) (r : RuntimeResources floats.F)
      : Type 0 where
    positive : floats.is_positive r.available_cpus ≡ true
    source : Source floats read cpus procs r
    quota : r.cpu_quota_detected ≡ is_given q
    set : r.cpu_set_detected ≡ is_given c

  -- A positive number stays.
  stays :
      (cpus procs : ℤ) (q c : Option floats.F) (r : RuntimeResources floats.F)
      → Done cpus procs q c r
      → Done cpus procs q c (apply_cpu_fallbacks floats read r)
  unfolding apply_cpu_fallbacks
  stays cpus procs q c r d = rw d.positive d

  falls_back :
      (cpus procs : ℤ) (r : RuntimeResources floats.F)
      → HasCounts floats
      → Found floats read cpus procs none none r
      → Done cpus procs none none (apply_cpu_fallbacks floats read r)
  unfolding apply_cpu_fallbacks
  falls_back cpus procs r h ((a, q, c, s), g, l) =
      let e = ap floats.is_positive a ∙ h.zero in
      elim (Bool-cases (ltb_ℤ (pos 0) procs)) [
        | inl p ↦
            let f = ap (λ n. ltb_ℤ (pos 0) n) g ∙ p in
            rw (e, f)
              (record {
                positive =
                    ap (λ n. floats.is_positive (floats.of_int n)) g ∙ count_positive h procs p;
                source = by_procs p (ap floats.of_int g, refl, c, refl);
                quota = refl;
                set = c;
              })
        | inr p ↦
            let f = ap (λ n. ltb_ℤ (pos 0) n) g ∙ p in
            let k = ap (λ n. ltb_ℤ (pos 0) n) l ∙ logical_pos cpus in
            rw (e, f, k)
              (record {
                positive =
                    ap (λ n. floats.is_positive (floats.of_int n)) l
                    ∙ count_positive h (logical cpus) (logical_pos cpus);
                source = by_cpus p (ap floats.of_int l, refl, c, refl);
                quota = refl;
                set = c;
              })
      ]

  apply_cpu_fallbacks-Done :
      (cpus procs : ℤ) (q c : Option floats.F) (r : RuntimeResources floats.F)
      → HasCounts floats
      → AreNumbers floats read
      → ((x : floats.F) → q ≡ some x → IsQuota floats read x)
      → ((x : floats.F) → c ≡ some x → IsCpuCount floats read x)
      → Found floats read cpus procs q c r
      → Done cpus procs q c (apply_cpu_fallbacks floats read r)
  apply_cpu_fallbacks-Done cpus procs none none r h n qs cs f = falls_back cpus procs r h f
  apply_cpu_fallbacks-Done cpus procs (some x) none r h n qs cs f =
      stays cpus procs (some x) none r (record {
        positive = ap floats.is_positive f.0 ∙ n x (qs x refl);
        source = by_quota x (qs x refl) f;
        quota = f.1;
        set = f.2;
      })
  apply_cpu_fallbacks-Done cpus procs none (some y) r h n qs cs f =
      stays cpus procs none (some y) r (record {
        positive = ap floats.is_positive f.0 ∙ IsCpuCount-positive h y (cs y refl);
        source = by_set y (cs y refl) f;
        quota = f.1;
        set = f.2;
      })
  apply_cpu_fallbacks-Done cpus procs (some x) (some y) r h n qs cs f =
      let p = n x (qs x refl) in
      let s = IsCpuCount-positive h y (cs y refl) in
      let e : min_positive floats read x y ≡ (if floats.less x y then x else y) = rw (p, s) refl in
      stays cpus procs (some x) (some y) r (record {
        positive = ap floats.is_positive (f.0 ∙ e) ∙ less_positive x y p s;
        source = by_both x y (qs x refl) (cs y refl) (f.0 ∙ e, f.1, f.2, f.3);
        quota = f.1;
        set = f.2;
      })

  -- In version 2, neither the root nor the process's own directory has what `Gives` asks for.
  abbrev pub HasNone : (String → floats.F → Type 0) → String → Type 0
  HasNone Gives given = ¬ (
      (dir : String) × (x : floats.F) × IsInside floats read (top floats read given)
        (own floats read) dir
      × Gives dir x)

  pub record IsSettled (given : String) (cpus procs : ℤ) (r : RuntimeResources floats.F)
      : Type 0 where
    pub positive : floats.is_positive r.available_cpus ≡ true
    pub source : Source floats read cpus procs r
    pub quota_seen :
        (r.cpu_quota_detected ≡ true)
        ⊎ (((own floats read).version ≢ 2) ⊎ HasNone (GivesV2 floats read) given)
    pub set_seen :
        (r.cpu_set_detected ≡ true)
        ⊎ (((own floats read).version ≢ 2) ⊎ HasNone (GivesSet floats read) given)

  detect-Done :
      (given : String) (cpus procs : ℤ)
      → HasCounts floats
      → AreNumbers floats read
      → Done cpus procs
          (quota_found floats read given)
          (set_found_in floats read given)
          (detect floats read given cpus procs)
  unfolding detect
  detect-Done given cpus procs h n =
      let q = quota_found floats read given in
      let c = set_found_in floats read given in
      let r = initially floats read cpus procs in
      apply_cpu_fallbacks-Done cpus procs q c (platform_detect floats read given r) h n
        (quota_of-IsQuota floats read (top floats read given) (own floats read))
        (cpu_set_of-IsCpuCount floats read (top floats read given) (own floats read))
        (Found-view floats read cpus procs q c (platform_detect floats read given r)
          (set_cpus floats read r q c) (view-platform_detect floats read given r)
          (set_cpus-Found floats read cpus procs q c))

  -- Whatever the cgroup files hold, where each quota in them is a positive number: the detected number of CPUs
  -- is positive, and it is one of these, with its source and the two flags set to match: a quota that a file
  -- gives, the number of CPUs that a file lists, the smaller of two such, or, with neither found, GOMAXPROCS
  -- where that is positive and else the number of logical CPUs. If the process is in a cgroup of version 2, a
  -- flag that is not set means that neither the process's own directory nor the root has a file that gives a
  -- quota, or that lists CPUs.
  pub detect-IsSettled :
      (given : String) (cpus procs : ℤ)
      → HasCounts floats
      → AreNumbers floats read
      → IsSettled given cpus procs (detect floats read given cpus procs)
  detect-IsSettled given cpus procs h n =
      let d = detect-Done given cpus procs h n in
      let root = top floats read given in
      let m = own floats read in
      elim (ℕ_discrete m.version 2) [
        | no v ↦ record {
          positive = d.positive;
          source = d.source;
          quota_seen = inr (inl v);
          set_seen = inr (inl v);
        }
        | yes v ↦ record {
          positive = d.positive;
          source = d.source;
          quota_seen = elim (Bool-cases (detect floats read given cpus procs).cpu_quota_detected) [
            | inl e ↦ inl e
            | inr e ↦
                inr (inr λ w. cc (e, d.quota, quota_of-given floats read root m w.0 w.1 v w.2 w.3))
          ];
          set_seen = elim (Bool-cases (detect floats read given cpus procs).cpu_set_detected) [
            | inl e ↦ inl e
            | inr e ↦
                inr (inr λ w. cc (e, d.set, cpu_set_of-given floats read root m w.0 w.1 v w.2 w.3))
          ];
        }
      ]
