-- ===== src/Worker/Scale/Plans.antt =====
-- What `SetDesired` decides: the new size, the slots to boot and the workers to drain.
use eregion.Prelude.{
  ℕ, zero, suc, ltb, ◌⊎◌, ◌+◌, ◌-◌, ◌≤◌, ◌<◌, ◌≡◌, refl, sym, ◌∙◌, Bool, true, false, not, ◌&&◌,
  none, some, List, [], ◌∷◌, ◌++◌, leb, if◌then◌else◌, length, arith, keep, map, inl, inr,
  Bool-cases,
}
use mathlib.Core.Path.{ap₂}
use eregion.Worker.Types.{Mode, Config, Slot, Worker, Pool}
use eregion.Worker.Restarts.{exceeded_restart_policy}
use eregion.Worker.Scale.{
  Task, nothing, drain_task, boot_task, scale_slot, Plan, apply_task, task_heap, scale_slots, clamp,
  grow, retire, scale_section, is_settled,
}
use eregion.Worker.Scale.Slots.{
  length-grow, length-retire, IsNumbered, grow-IsNumbered, retire-IsNumbered,
}

-- A slot within the new size that has no worker and has not failed.
abbrev pub is_vacant : Config → ℕ → Slot → Bool
is_vacant cfg n s =
    leb s.index n
    && (elim s.worker [ none ↦ true | some _ ↦ false ] && not (exceeded_restart_policy cfg s))

abbrev pub index_of : Slot → ℕ
index_of s = s.index

abbrev boots_of : Task → List ℕ
boots_of (boot_task i) = i ∷ []
boots_of _ = []

abbrev drains_of : Task → List ℕ
drains_of (drain_task a) = a ∷ []
drains_of _ = []

to_boot-apply_task :
    (t : Task) (s : Slot) (heap : List Worker) (r : Plan)
    → (apply_task t s heap r).to_boot ≡ boots_of t ++ r.to_boot
to_boot-apply_task nothing s heap r = refl
to_boot-apply_task (drain_task a) s heap r = refl
to_boot-apply_task (boot_task i) s heap r = refl

to_drain-apply_task :
    (t : Task) (s : Slot) (heap : List Worker) (r : Plan)
    → (apply_task t s heap r).to_drain ≡ drains_of t ++ r.to_drain
to_drain-apply_task nothing s heap r = refl
to_drain-apply_task (drain_task a) s heap r = refl
to_drain-apply_task (boot_task i) s heap r = refl

heap-apply_task :
    (t : Task) (s : Slot) (heap : List Worker) (r : Plan) → (apply_task t s heap r).heap ≡ r.heap
heap-apply_task nothing s heap r = refl
heap-apply_task (boot_task i) s heap r = refl
heap-apply_task (drain_task a) s heap r = refl

boots_of-scale_slot :
    (m : Mode) (cfg : Config) (n : ℕ) (heap : List Worker) (s : Slot)
    → boots_of (scale_slot m cfg n heap s) ≡ (if is_vacant cfg n s then s.index ∷ [] else [])
unfolding scale_slot
boots_of-scale_slot m cfg n heap s = ground arith

vacant_cons :
    (cfg : Config) (n : ℕ) (s : Slot) (ss : List Slot)
    → map index_of (keep (is_vacant cfg n) (s ∷ ss))
      ≡ (if is_vacant cfg n s then s.index ∷ [] else []) ++ map index_of (keep (is_vacant cfg n) ss)
vacant_cons cfg n s ss = elim (Bool-cases (is_vacant cfg n s)) [ inl e ↦ rw e | inr e ↦ rw e ]

pub to_boot-scale_slots :
    (m : Mode) (cfg : Config) (n : ℕ) (heap : List Worker) (ss : List Slot)
    → (scale_slots m cfg n heap ss).to_boot ≡ map index_of (keep (is_vacant cfg n) ss)
unfolding scale_slots
to_boot-scale_slots m cfg n heap [] = refl
to_boot-scale_slots m cfg n heap (s ∷ ss) =
    let t = scale_slot m cfg n heap s in
    to_boot-apply_task t s heap (scale_slots m cfg n (task_heap t heap) ss)
    ∙ ap₂ ◌++◌ (boots_of-scale_slot m cfg n heap s)
        (to_boot-scale_slots m cfg n (task_heap t heap) ss)
    ∙ sym (vacant_cons cfg n s ss)

-- A task puts the slot back where it stood, under its number.
slots-apply_task :
    (t : Task) (s : Slot) (heap : List Worker) (r : Plan) (i : ℕ)
    → (length (apply_task t s heap r).slots ≡ suc (length r.slots))
      × ((s.index ≡ i + 1) × IsNumbered (i + 1) r.slots
          → IsNumbered i (apply_task t s heap r).slots)
slots-apply_task nothing s heap r i = (refl, λ h. h)
slots-apply_task (drain_task a) s heap r i = (refl, λ h. h)
slots-apply_task (boot_task j) s heap r i = (refl, λ h. h)

pub slots-scale_slots :
    (m : Mode) (cfg : Config) (n : ℕ) (heap : List Worker) (i : ℕ) (ss : List Slot)
    → (length (scale_slots m cfg n heap ss).slots ≡ length ss)
      × (IsNumbered i ss → IsNumbered i (scale_slots m cfg n heap ss).slots)
unfolding scale_slots
slots-scale_slots m cfg n heap i [] = (refl, λ h. h)
slots-scale_slots m cfg n heap i (s ∷ ss) =
    let t = scale_slot m cfg n heap s in
    let (sized, numbered) = slots-scale_slots m cfg n (task_heap t heap) (i + 1) ss in
    let head = slots-apply_task t s heap (scale_slots m cfg n (task_heap t heap) ss) i in
    (omega (arith, sized, head.0), λ h. head.1 (h.0, numbered h.1))

-- The slots over which a call that does something decides.
abbrev pub covered_slots : Pool → ℕ → List Slot
covered_slots p n = retire n 0 (grow (n - length p.slots) p.slots)

-- `n` is the number nearest to `wanted` in a pool's bounds, where an upper bound of 0 is none, and
-- the upper one counts where the two are out of order.
pub data IsNearest (min_w max_w wanted n : ℕ) : Type 0 where
  below :
      wanted < min_w → (max_w ≡ 0) ⊎ (min_w ≤ max_w) → n ≡ min_w → IsNearest min_w max_w wanted n
  inside :
      min_w ≤ wanted → (max_w ≡ 0) ⊎ (wanted ≤ max_w) → n ≡ wanted → IsNearest min_w max_w wanted n
  above :
      0 < max_w → (max_w < wanted) ⊎ (max_w < min_w) → n ≡ max_w → IsNearest min_w max_w wanted n

over : (max_w m : ℕ) → ((max_w ≡ 0) ⊎ (m ≤ max_w)) ⊎ ((0 < max_w) × (max_w < m))
over zero m = inl (inl refl)
over (suc k) m = elim (Bool-cases (ltb (suc k) m)) [
  | inl e ↦ inr (ground (arith, e), ground (arith, e))
  | inr e ↦ inl (inr (ground (arith, e)))
]

clamp-IsNearest : (min_w max_w wanted : ℕ) → IsNearest min_w max_w wanted (clamp min_w max_w wanted)
clamp-IsNearest min_w max_w wanted = elim (Bool-cases (ltb wanted min_w)) [
  | inl e ↦ elim (over max_w min_w) [
    | inl o ↦ below (ground (arith, e)) o (ground (arith, e, o))
    | inr (p, o) ↦ above p (inr o) (ground (arith, e, p, o))
  ]
  | inr e ↦ elim (over max_w wanted) [
    | inl o ↦ inside (ground (arith, e)) o (ground (arith, e, o))
    | inr (p, o) ↦ above p (inl o) (ground (arith, e, p, o))
  ]
]

-- A call of `SetDesired` on a pool that runs, and whose size or slots have something left to do:
-- the size becomes the number nearest to the wanted one within the pool's bounds, there is a slot for each worker
-- wanted, the slots keep their numbers, and the slots to boot are exactly those within the new size
-- that have no worker and have not failed for good, in their order.
pub scale_section-plan :
    (p : Pool) (wanted : ℕ)
    → p.stopping ≡ false
    → is_settled p (clamp p.min_w p.max_w wanted) ≡ false
    → IsNumbered 0 p.slots
    → let n = clamp p.min_w p.max_w wanted in
      let r = scale_section p wanted in
      (r.pool.desired ≡ n)
      × IsNearest p.min_w p.max_w wanted n
      × (n ≤ length r.pool.slots)
      × (length p.slots ≤ length r.pool.slots)
      × IsNumbered 0 r.pool.slots
      × (r.to_boot ≡ map index_of (keep (is_vacant p.cfg n) (covered_slots p n)))
unfolding scale_section
scale_section-plan p wanted running unsettled numbered =
    let n = clamp p.min_w p.max_w wanted in
    let slots = covered_slots p n in
    let (sized, kept) = slots-scale_slots p.mode p.cfg n p.heap 0 slots in
    let grown = grow (n - length p.slots) p.slots in
    let size : length slots ≡ n - length p.slots + length p.slots =
      length-retire n 0 grown ∙ length-grow (n - length p.slots) p.slots in
    simp (running, unsettled)
      (
        refl,
        clamp-IsNearest p.min_w p.max_w wanted,
        omega (arith, sized, size),
        omega (arith, sized, size),
        kept
            (retire-IsNumbered n 0 0 grown (grow-IsNumbered (n - length p.slots) p.slots numbered)),
        to_boot-scale_slots p.mode p.cfg n p.heap slots,
      )
