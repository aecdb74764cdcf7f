-- ===== src/Resources/Evidence.antt =====
-- What the files hold when a quota or a CPU set is found.
use eregion.Prelude.{
  is_given, or_else, ℕ, ◌<◌, ◌≡◌, refl, true, false, not, ◌&&◌, Option, none, some, [], ◌∷◌, String,
  inl, inr, ◌⊎◌, Bool-cases, arith, ◌==◌,
}
use eregion.Prelude.Int.{pos}
use eregion.Prelude.Results.{Result, ok, fail, Result-cases}
use eregion.Prelude.Texts.{is_empty}
use eregion.Resources.Types.{Floats, CpuQuota, CgroupMembership, ParseError}
use eregion.Resources.Parse.{parse_cpu_max, parse_cfs_quota}
use eregion.Resources.CpuSet.{parse_cpu_set}
use eregion.Resources.Place.{join_root, resolve_cgroup_path}
use eregion.Resources.Detect.{
  if_found, usable, read_v2_cpu_at, read_v1_cpu_at, read_candidate, read_cpu_set_at, leaf_then_root,
  leaf_if_named, under, or_cpu, quota_of, cpu_set_of,
}

if_found-some {ℓ κ} :
    {A : Type ℓ} {B : Type κ} (o : Option A) (f : A → Option B) {x : B}
    → if_found o f ≡ some x
    → (a : A) × (o ≡ some a) × (f a ≡ some x)
if_found-some none f h = absurd (cc h)
if_found-some (some a) f h = (a, refl, h)

or_else-some {ℓ} :
    {A : Type ℓ} (a b : Option A) {x : A} → or_else a b ≡ some x → (a ≡ some x) ⊎ (b ≡ some x)
or_else-some none b h = inr h
or_else-some (some a) b h = inl h

module _ (floats : Floats) (read : String → Option String) where
  -- A quota that is limited and above 0.
  pub record IsLimit (r : Result ParseError (CpuQuota floats.F)) (x : floats.F) : Type 0 where
    pub quota : CpuQuota floats.F
    pub parsed : r ≡ ok quota
    pub limited : quota.limited ≡ true
    pub above : floats.is_nonpositive quota.available ≡ false
    pub value : quota.available ≡ x

  -- The directory's `cpu.max` gives the quota `x`.
  pub record GivesV2 (dir : String) (x : floats.F) : Type 0 where
    pub content : String
    pub there : read (join_root (dir ∷ "cpu.max" ∷ [])) ≡ some content
    pub limit : IsLimit (parse_cpu_max floats content) x

  pub record GivesV1 (dir : String) (x : floats.F) : Type 0 where
    pub content : String
    pub period : String
    pub there : read (join_root (dir ∷ "cpu.cfs_quota_us" ∷ [])) ≡ some content
    pub timed : read (join_root (dir ∷ "cpu.cfs_period_us" ∷ [])) ≡ some period
    pub limit : IsLimit (parse_cfs_quota floats content period) x

  -- A file lists CPUs, whose number is `x`.
  pub record Lists (path : String) (x : floats.F) : Type 0 where
    pub content : String
    pub number : ℕ
    pub there : read path ≡ some content
    pub parsed : parse_cpu_set content ≡ ok number
    pub any : 0 < number
    pub value : x ≡ floats.of_int (pos number)

  abbrev pub GivesSet : String → floats.F → Type 0
  GivesSet dir x =
      Lists (join_root (dir ∷ "cpuset.cpus.effective" ∷ [])) x
      ⊎ Lists (join_root (dir ∷ "cpuset.cpus" ∷ [])) x

  abbrev pub IsQuota : floats.F → Type 0
  IsQuota x = (dir : String) × (GivesV2 dir x ⊎ GivesV1 dir x)

  abbrev pub IsCpuCount : floats.F → Type 0
  IsCpuCount x = (dir : String) × GivesSet dir x

  usable-some :
      (r : Result ParseError (CpuQuota floats.F)) (x : floats.F)
      → usable floats read r ≡ some x
      → IsLimit r x
  usable-some (fail e) x h = absurd (cc h)
  usable-some (ok q) x h = record {
    quota = q;
    parsed = refl;
    limited = ground (arith, h);
    above = ground (arith, h);
    value = ground (arith, h);
  }

  v2-some : (dir : String) (x : floats.F) → read_v2_cpu_at floats read dir ≡ some x → GivesV2 dir x
  v2-some dir x h =
      let (content, there, u) = if_found-some (read (join_root (dir ∷ "cpu.max" ∷ []))) _ h in
      record { content = content; there = there; limit = usable-some _ x u }

  v1-some : (dir : String) (x : floats.F) → read_v1_cpu_at floats read dir ≡ some x → GivesV1 dir x
  v1-some dir x h =
      let (content, there, u) =
        if_found-some (read (join_root (dir ∷ "cpu.cfs_quota_us" ∷ []))) _ h in
      let (period, timed, v) =
        if_found-some (read (join_root (dir ∷ "cpu.cfs_period_us" ∷ []))) _ u in
      record {
        content = content;
        period = period;
        there = there;
        timed = timed;
        limit = usable-some _ x v;
      }

  candidate-some :
      (path : String) (x : floats.F) → read_candidate floats read path ≡ some x → Lists path x
  candidate-some path x h =
      let (content, there, u) = if_found-some (read path) _ h in
      elim (Result-cases (parse_cpu_set content)) [
        | inr (e, f) ↦ absurd (ground (arith, f, u))
        | inl (n, f) ↦ record {
          content = content;
          number = n;
          there = there;
          parsed = f;
          any = ground (arith, f, u);
          value = ground (arith, f, u);
        }
      ]

  set-some :
      (dir : String) (x : floats.F) → read_cpu_set_at floats read dir ≡ some x → GivesSet dir x
  set-some dir x h = elim (or_else-some _ _ h) [
    | inl e ↦ inl (candidate-some _ x e)
    | inr e ↦ inr (candidate-some _ x e)
  ]

  leaf-some :
      (at : String → Option floats.F) (root path : String) (x : floats.F)
      → leaf_then_root floats read at root path ≡ some x
      → (dir : String) × (at dir ≡ some x)
  leaf-some at root path x h = elim (or_else-some _ _ h) [
    | inl e ↦ let (dir, _, u) = if_found-some (resolve_cgroup_path root path) at e in (dir, u)
    | inr e ↦ (root, e)
  ]

  named-some :
      (at : String → Option floats.F) (root path : String) (x : floats.F)
      → leaf_if_named floats read at root path ≡ some x
      → (dir : String) × (at dir ≡ some x)
  named-some at root path x h = elim (Bool-cases (is_empty path)) [
    | inl e ↦ (root, rw e at h)
    | inr e ↦ leaf-some at root path x (rw e at h)
  ]

  of_v2 : (x : floats.F) → (dir : String) × (read_v2_cpu_at floats read dir ≡ some x) → IsQuota x
  of_v2 x (dir, h) = (dir, inl (v2-some dir x h))

  of_v1 : (x : floats.F) → (dir : String) × (read_v1_cpu_at floats read dir ≡ some x) → IsQuota x
  of_v1 x (dir, h) = (dir, inr (v1-some dir x h))

  of_set :
      (x : floats.F) → (dir : String) × (read_cpu_set_at floats read dir ≡ some x) → IsCpuCount x
  of_set x (dir, h) = (dir, set-some dir x h)

  pub quota_of-IsQuota :
      (root : String) (m : CgroupMembership) (x : floats.F)
      → (quota_of floats read root m).0 ≡ some x
      → IsQuota x
  unfolding quota_of
  quota_of-IsQuota root m x = elim (Bool-cases (m.version == 2)) [
    | inl e ↦ rw e (λ h. of_v2 x (leaf-some (read_v2_cpu_at floats read) root m.unified x h))
    | inr e ↦ elim (Bool-cases ((m.version == 1) && not (is_empty m.cpu))) [
      | inl f ↦
          rw (e, f)
            (λ h.
              of_v1 x
                (leaf-some (read_v1_cpu_at floats read) (under floats read root "cpu") m.cpu x h))
      | inr f ↦ elim (Bool-cases (is_given (read_v2_cpu_at floats read root))) [
        | inl g ↦ rw (e, f, g) (λ h. of_v2 x (root, h))
        | inr g ↦
            elim (Bool-cases
              (is_given (read_v1_cpu_at floats read (under floats read root "cpu")))) [
                | inl k ↦ rw (e, f, g, k) (λ h. of_v1 x (under floats read root "cpu", h))
                | inr k ↦ rw (e, f, g, k) (λ h. absurd (cc h))
              ]
      ]
    ]
  ]

  pub cpu_set_of-IsCpuCount :
      (root : String) (m : CgroupMembership) (x : floats.F)
      → (cpu_set_of floats read root m).0 ≡ some x
      → IsCpuCount x
  unfolding cpu_set_of
  cpu_set_of-IsCpuCount root m x =
      let at = read_cpu_set_at floats read in
      let below = under floats read root "cpuset" in
      elim (Bool-cases (m.version == 2)) [
        | inl e ↦ rw e (λ h. of_set x (leaf-some at root m.unified x h))
        | inr e ↦ elim (Bool-cases (m.version == 1)) [
          | inl f ↦ rw (e, f) (λ h. of_set x (named-some at below (or_cpu m.cpu_set m.cpu) x h))
          | inr f ↦ elim (Bool-cases (is_given (read_cpu_set_at floats read root))) [
            | inl g ↦ rw (e, f, g) (λ h. of_set x (root, h))
            | inr g ↦
                elim (Bool-cases
                  (is_given (read_cpu_set_at floats read (under floats read root "cpuset")))) [
                    | inl k ↦ rw (e, f, g, k) (λ h. of_set x (below, h))
                    | inr k ↦ rw (e, f, g, k) (λ h. absurd (cc h))
                  ]
          ]
        ]
      ]
