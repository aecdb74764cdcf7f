-- ===== src/Worker/Scale/Drains.antt =====
-- Which workers `SetDesired` drains.
use eregion.Prelude.{
  ℕ, ◌-◌, ◌≡◌, refl, sym, ◌∙◌, true, some, List, [], ◌∷◌, length, get_elem?, arith, All, modify,
  ◌≢◌, inl, inr, get_elem?-modify_self, get_elem?-modify_ne, Bool-cases, Option-cases,
}
use mathlib.Core.Path.{subst}
use native.Mathlib.Decide.{ℕ_discrete}
use eregion.Worker.Types.{
  busy, draining, Mode, http, Config, Slot, Worker, Pool, with_state, worker_at,
}
use eregion.Worker.Scale.{
  Task, nothing, drain_task, boot_task, scale_slot, Plan, apply_task, task_heap, scale_slots, clamp,
  grow, retire, scale_section, drain_decision, is_settled,
}

-- `a` is a worker that may be drained: it exists, and is not serving an HTTP request.
abbrev pub IsDrainable : Mode → List Worker → ℕ → Type 0
IsDrainable m heap a =
    (w : Worker) × (get_elem? heap a ≡ some w) × (drain_decision m w.state ≡ true)

abbrev IsDraining : List Worker → ℕ → Type 0
IsDraining heap a = (w : Worker) × (get_elem? heap a ≡ some w) × (w.state ≡ draining)

modify-IsDraining :
    (heap : List Worker) (a b : ℕ)
    → IsDraining heap b
    → IsDraining (modify (with_state draining) heap a) b
modify-IsDraining heap a b (w, e, d) = elim (ℕ_discrete a b) [
  | yes same ↦ (
    with_state draining w,
    rw same (get_elem?-modify_self (with_state draining) heap b w e),
    refl,
  )
  | no other ↦ (w, get_elem?-modify_ne (with_state draining) heap a b other ∙ e, d)
]

-- A task leaves draining workers draining.
task_heap-IsDraining :
    (t : Task) (heap : List Worker) (b : ℕ) → IsDraining heap b → IsDraining (task_heap t heap) b
task_heap-IsDraining nothing heap b d = d
task_heap-IsDraining (boot_task i) heap b d = d
task_heap-IsDraining (drain_task a) heap b d = modify-IsDraining heap a b d

pub heap-apply_task :
    (t : Task) (s : Slot) (heap : List Worker) (r : Plan) → (apply_task t s heap r).heap ≡ r.heap
heap-apply_task nothing s heap r = refl
heap-apply_task (boot_task i) s heap r = refl
heap-apply_task (drain_task a) s heap r = refl

scale_slots-IsDraining :
    (m : Mode) (cfg : Config) (n : ℕ) (heap : List Worker) (ss : List Slot) (b : ℕ)
    → IsDraining heap b
    → IsDraining (scale_slots m cfg n heap ss).heap b
unfolding scale_slots
scale_slots-IsDraining m cfg n heap [] b d = d
scale_slots-IsDraining m cfg n heap (s ∷ ss) b d =
    let t = scale_slot m cfg n heap s in
    rw (heap-apply_task t s heap (scale_slots m cfg n (task_heap t heap) ss))
      (scale_slots-IsDraining m cfg n (task_heap t heap) ss b (task_heap-IsDraining t heap b d))

drain_task_source :
    (m : Mode) (cfg : Config) (n : ℕ) (heap : List Worker) (s : Slot) (a : ℕ)
    → scale_slot m cfg n heap s ≡ drain_task a
    → IsDrainable m heap a
unfolding scale_slot
drain_task_source m cfg n heap s a e = elim (Option-cases (get_elem? heap a)) [
  | inl missing ↦ absurd (ground arith)
  | inr (w, found) ↦ (w, found, ground arith)
]

-- A worker that may be drained after a task could be drained before it.
task_heap-IsDrainable :
    (m : Mode) (cfg : Config) (n : ℕ) (s : Slot) (heap : List Worker) (t : Task) (b : ℕ)
    → scale_slot m cfg n heap s ≡ t
    → IsDrainable m (task_heap t heap) b
    → IsDrainable m heap b
task_heap-IsDrainable m cfg n s heap nothing b e d = d
task_heap-IsDrainable m cfg n s heap (boot_task i) b e d = d
task_heap-IsDrainable m cfg n s heap (drain_task a) b e (w, f, d) = elim (ℕ_discrete a b) [
  | yes same ↦ subst (IsDrainable m heap) same (drain_task_source m cfg n heap s a e)
  | no other ↦ (w, sym (get_elem?-modify_ne (with_state draining) heap a b other) ∙ f, d)
]

All-imp : {P Q : ℕ → Type 0} → ((a : ℕ) → P a → Q a) → (xs : List ℕ) → All P xs → All Q xs
All-imp f [] h = tt
All-imp f (x ∷ xs) h = (f x h.0, All-imp f xs h.1)

-- What is claimed of each worker in `to_drain`, over the heaps before and after.
abbrev pub IsDrained : Mode → List Worker → List Worker → ℕ → Type 0
IsDrained m before after a = IsDrainable m before a × IsDraining after a

add_task :
    (m : Mode) (cfg : Config) (n : ℕ) (s : Slot) (heap : List Worker) (t : Task) (r : Plan)
    → scale_slot m cfg n heap s ≡ t
    → ((b : ℕ) → IsDraining (task_heap t heap) b → IsDraining r.heap b)
    → All (IsDrained m heap r.heap) r.to_drain
    → All (IsDrained m heap r.heap) (apply_task t s heap r).to_drain
add_task m cfg n s heap nothing r e later h = h
add_task m cfg n s heap (boot_task i) r e later h = h
add_task m cfg n s heap (drain_task a) r e later h =
    let (w, f, d) = drain_task_source m cfg n heap s a e in
    (
      (
        (w, f, d),
        later a
            (with_state draining w, get_elem?-modify_self (with_state draining) heap a w f, refl),
      ),
      h,
    )

pub scale_slots-IsDrained :
    (m : Mode) (cfg : Config) (n : ℕ) (heap : List Worker) (ss : List Slot)
    → let r = scale_slots m cfg n heap ss in All (IsDrained m heap r.heap) r.to_drain
unfolding scale_slots
scale_slots-IsDrained m cfg n heap [] = tt
scale_slots-IsDrained m cfg n heap (s ∷ ss) =
    let t = scale_slot m cfg n heap s in
    let r = scale_slots m cfg n (task_heap t heap) ss in
    rw (heap-apply_task t s heap r) (
      add_task m cfg n s heap t r refl
        (λ b d. scale_slots-IsDraining m cfg n (task_heap t heap) ss b d)
        (All-imp (λ b d. (task_heap-IsDrainable m cfg n s heap t b refl d.0, d.1)) r.to_drain
          (scale_slots-IsDrained m cfg n (task_heap t heap) ss)))

abbrev pub IsSparing : Pool → List Worker → ℕ → Type 0
IsSparing p after a =
    (w : Worker) × (worker_at p a ≡ some w) × (w.state ≢ busy) × IsDraining after a

spare :
    (p : Pool) (after : List Worker) (a : ℕ)
    → p.mode ≡ http
    → IsDrained p.mode p.heap after a
    → IsSparing p after a
spare p after a h ((w, e, d), r) = (w, e, ground arith, r)

-- On an HTTP pool, every worker that `SetDesired` puts into the list to drain is in the heap and not
-- in the state busy when the slots are gone through, and it is in the state draining afterwards.
pub to_drain-IsSparing :
    (p : Pool) (wanted : ℕ)
    → p.mode ≡ http
    → All (IsSparing p (scale_section p wanted).pool.heap) (scale_section p wanted).to_drain
unfolding scale_section
to_drain-IsSparing p wanted h =
    let n = clamp p.min_w p.max_w wanted in
    let slots = retire n 0 (grow (n - length p.slots) p.slots) in
    let r = scale_slots p.mode p.cfg n p.heap slots in
    let all =
      All-imp (λ a d. spare p r.heap a h d) r.to_drain
        (scale_slots-IsDrained p.mode p.cfg n p.heap slots) in
    elim (Bool-cases p.stopping) [
      | inl e ↦ simp e tt
      | inr e ↦ elim (Bool-cases (is_settled p n)) [
        | inl f ↦ simp (e, f) tt
        | inr f ↦ simp (e, f) all
      ]
    ]
