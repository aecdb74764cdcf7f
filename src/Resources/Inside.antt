-- ===== src/Resources/Inside.antt =====
-- Where a file gives a quota or lists CPUs, version 2 finds one.
use eregion.Prelude.{
  is_given, ◌≡◌, refl, sym, true, Option, some, [], ◌∷◌, String, inl, inr, ◌⊎◌, Option-cases, arith,
  ◌==◌,
}
use eregion.Resources.Types.{Floats, CgroupMembership}
use eregion.Resources.Evidence.{GivesV2, GivesSet, Lists}
use eregion.Resources.Place.{join_root, resolve_cgroup_path}
use eregion.Resources.Detect.{
  if_found, read_v2_cpu_at, read_candidate, read_cpu_set_at, leaf_then_root, quota_of, cpu_set_of,
}

module _ (floats : Floats) (read : String → Option String) where
  -- The directories that version 2 has the code look into: the root, and the process's own.
  abbrev pub IsInside : String → CgroupMembership → String → Type 0
  IsInside root m dir = (dir ≡ root) ⊎ (resolve_cgroup_path root m.unified ≡ some dir)

  given_inside :
      (at : String → Option floats.F) (root : String) (m : CgroupMembership) (dir : String)
      (x : floats.F)
      → IsInside root m dir
      → at dir ≡ some x
      → is_given (leaf_then_root floats read at root m.unified) ≡ true
  given_inside at root m dir x (inl e) h =
      elim (Option-cases (if_found (resolve_cgroup_path root m.unified) at)) [
        | inr (y, f) ↦ rw f refl
        | inl f ↦ rw (f, sym e, h) refl
      ]
  given_inside at root m dir x (inr e) h = rw (e, h) refl

  v2-given :
      (dir : String) (x : floats.F)
      → GivesV2 floats read dir x
      → read_v2_cpu_at floats read dir ≡ some x
  v2-given dir x g = let l = g.limit in rw (g.there, l.parsed, l.limited, l.above, l.value) refl

  candidate-given :
      (path : String) (x : floats.F)
      → Lists floats read path x
      → read_candidate floats read path ≡ some x
  candidate-given path x l = rw (l.there, l.parsed) (ground (arith, l))

  set-given :
      (dir : String) (x : floats.F)
      → GivesSet floats read dir x
      → (y : floats.F) × (read_cpu_set_at floats read dir ≡ some y)
  set-given dir x (inl l) = (x, rw (candidate-given _ x l) refl)
  set-given dir x (inr l) =
      elim (Option-cases
        (read_candidate floats read (join_root (dir ∷ "cpuset.cpus.effective" ∷ [])))) [
          | inr (y, f) ↦ (y, rw f refl)
          | inl f ↦ (x, rw (f, candidate-given _ x l) refl)
        ]

  pub quota_of-given :
      (root : String) (m : CgroupMembership) (dir : String) (x : floats.F)
      → m.version ≡ 2
      → IsInside root m dir
      → GivesV2 floats read dir x
      → is_given (quota_of floats read root m).0 ≡ true
  unfolding quota_of
  quota_of-given root m dir x v i g =
      let e : (m.version == 2) ≡ true = ground arith in
      rw e (given_inside (read_v2_cpu_at floats read) root m dir x i (v2-given dir x g))

  pub cpu_set_of-given :
      (root : String) (m : CgroupMembership) (dir : String) (x : floats.F)
      → m.version ≡ 2
      → IsInside root m dir
      → GivesSet floats read dir x
      → is_given (cpu_set_of floats read root m).0 ≡ true
  unfolding cpu_set_of
  cpu_set_of-given root m dir x v i g =
      let e : (m.version == 2) ≡ true = ground arith in
      let (y, h) = set-given dir x g in
      rw e (given_inside (read_cpu_set_at floats read) root m dir y i h)
