-- ===== src/Worker/Scale/Race.antt =====
-- What a shrinking pool does to a worker that a request is about to use.
use eregion.Prelude.{
  ℕ, zero, suc, ◌<◌, ◌≡◌, refl, sym, ap, ◌∙◌, true, false, some, List, [], ◌∷◌, get_elem?, arith,
  ◌≢◌, inl, inr, ◌⊎◌, get_elem?-modify_ne, ==_self, to_nat, some_eq,
}
use mathlib.Core.Path.{subst}
use eregion.Prelude.Counts.{count, count-cons, remove}
use native.Mathlib.Decide.{ℕ_discrete}
use eregion.Worker.Types.{
  http, idle, busy, draining, set_state, Mode, Config, Slot, Worker, Pool, with_state, worker_at,
}
use eregion.Worker.Scale.{
  Task, nothing, drain_task, boot_task, scale_slot, Plan, apply_task, task_heap, scale_slots, clamp,
  scale_section, drain_decision,
}
use eregion.Worker.Acquire.{look, is_idle_at}
use eregion.Worker.System.{System, add_looked, add_if}

-- The other direction: a worker of a slot above the new size that may be drained is drained.
drain_task_of :
    (m : Mode) (cfg : Config) (n : ℕ) (heap : List Worker) (s : Slot) (a : ℕ) (w : Worker)
    → s.worker ≡ some a
    → n < s.index
    → get_elem? heap a ≡ some w
    → drain_decision m w.state ≡ true
    → scale_slot m cfg n heap s ≡ drain_task a
unfolding scale_slot
drain_task_of m cfg n heap s a w held above found ok = ground arith

count_task :
    (t : Task) (s : Slot) (heap : List Worker) (r : Plan) (a : ℕ)
    → 0 < count a r.to_drain
    → 0 < count a (apply_task t s heap r).to_drain
count_task nothing s heap r a h = h
count_task (boot_task i) s heap r a h = h
count_task (drain_task b) s heap r a h = omega (arith, count-cons a b r.to_drain)

-- A task drains `a`, or leaves it as it was.
task_cases :
    (t : Task) (heap : List Worker) (a : ℕ)
    → (t ≡ drain_task a) ⊎ (get_elem? (task_heap t heap) a ≡ get_elem? heap a)
task_cases nothing heap a = inr refl
task_cases (boot_task i) heap a = inr refl
task_cases (drain_task b) heap a = elim (ℕ_discrete b a) [
  | yes same ↦ inl (ap drain_task same)
  | no other ↦ inr (get_elem?-modify_ne (with_state draining) heap b a other)
]

count_drained :
    (s : Slot) (heap : List Worker) (r : Plan) (a : ℕ) (t : Task)
    → t ≡ drain_task a
    → 0 < count a (apply_task t s heap r).to_drain
count_drained s heap r a t e =
    subst (λ u. 0 < count a (apply_task u s heap r).to_drain) (sym e)
      (omega (arith, count-cons a a r.to_drain, ap to_nat (==_self a)))

pub scale_slots-drains :
    (m : Mode) (cfg : Config) (n : ℕ) (heap : List Worker) (ss : List Slot) (k : ℕ) (s : Slot)
    (a : ℕ) (w : Worker)
    → get_elem? ss k ≡ some s
    → s.worker ≡ some a
    → n < s.index
    → get_elem? heap a ≡ some w
    → drain_decision m w.state ≡ true
    → 0 < count a (scale_slots m cfg n heap ss).to_drain
unfolding scale_slots
scale_slots-drains m cfg n heap [] k s a w at' held above found ok = cc
scale_slots-drains m cfg n heap (x ∷ ss) zero s a w at' held above found ok =
    count_drained x heap (scale_slots m cfg n (task_heap (scale_slot m cfg n heap x) heap) ss) a
      (scale_slot m cfg n heap x)
      (let e = some_eq at' in
        drain_task_of m cfg n heap x a w (ap (λ (y : Slot). y.worker) e ∙ held)
          (subst (λ (y : Slot). n < y.index) (sym e) above) found ok)
scale_slots-drains m cfg n heap (x ∷ ss) (suc k) s a w at' held above found ok =
    let t = scale_slot m cfg n heap x in
    let r = scale_slots m cfg n (task_heap t heap) ss in
    elim (task_cases t heap a) [
      | inl e ↦ count_drained x heap r a t e
      | inr same ↦ count_task t x heap r a (
          scale_slots-drains m cfg n (task_heap t heap) ss k s a w at' held above (same ∙ found) ok)
    ]

-- On an HTTP pool that runs: the idle worker at `a` of slot `k + 1`, and a new size below the slot.
pub record IsSurplus (p : Pool) (wanted k a : ℕ) : Type 0 where
  pub slot : Slot
  pub worker : Worker
  pub serves : p.mode ≡ http
  pub running : p.stopping ≡ false
  pub moved : clamp p.min_w p.max_w wanted ≢ p.desired
  pub at_slot : get_elem? p.slots k ≡ some slot
  pub held : slot.worker ≡ some a
  pub above : clamp p.min_w p.max_w wanted < slot.index
  pub found : worker_at p a ≡ some worker
  pub of_slot : worker.slot ≡ suc k
  pub idles : worker.state ≡ idle

-- The steps of `TryAcquire` up to its test of the state.
abbrev found_idle : System → ℕ → List ℕ → System
found_idle s a rest =
    let p = record s.pool { channel = rest } in
    record s {
      pool = p;
      received = remove a (a ∷ s.received);
      looked = remove a (add_looked (look p a) a s.looked);
      taken = add_if (is_idle_at p a) a s.taken;
    }

-- The section of `SetDesired` then, and `setState` after it.
abbrev marked_late : System → ℕ → ℕ → List ℕ → System
marked_late s wanted a rest =
    let t = found_idle s a rest in
    record t {
      pool = set_state (scale_section t.pool wanted).pool a busy;
      taken = remove a t.taken;
      leased = a ∷ t.leased;
    }
