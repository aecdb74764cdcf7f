-- ===== src/Worker/System/Effects.antt =====
-- What the steps do to the heap's size and to the channel's entries.
use eregion.Prelude.{
  modify, length-modify, ℕ, ◌+◌, ◌≤◌, ◌≡◌, refl, Bool, List, [], ◌∷◌, Option, none, some, length,
  arith, to_nat, ◌==◌, length-append, ap, ◌-◌, ◌⊎◌, ◌∙◌,
}
use eregion.Prelude.Counts.{count, count-nil, count-cons, count-append}
use eregion.Worker.Types.{
  State, Mode, Config, Slot, draining, idle, Pool, Worker, set_state, send_idle, with_state,
}
use eregion.Worker.Boot.{boot_begin, boot_fail, boot_install, schedule_restart}
use eregion.Worker.Monitor.{exit_section, crash_section, bury}
use eregion.Worker.Scale.{
  scale_section, scale_slots, scale_slot, task_heap, Task, nothing, drain_task, boot_task, clamp,
  retire, grow, apply_task, Plan, end_worker,
}
use eregion.Worker.Shutdown.{update_all, shut_worker, remaining, shut_section}
use eregion.Worker.Release.{Meta, release_section, discard, retire_worker, count_request}

-- What a step does to the pool without handing a worker to anybody.
pub record Quiet (p q : Pool) (b : ℕ) : Type 0 where
  pub size : length q.heap ≡ length p.heap
  pub idles : count b q.channel ≤ count b p.channel

pub boot_begin-Quiet : (p : Pool) (k b : ℕ) → Quiet p (boot_begin p k).0 b
unfolding boot_begin
boot_begin-Quiet p k b = ground arith

pub boot_fail-Quiet : (p : Pool) (k : ℕ) (c : Bool) (now b : ℕ) → Quiet p (boot_fail p k c now).0 b
unfolding boot_fail
boot_fail-Quiet p k c now b = ground arith

pub schedule_restart-Quiet :
    (p : Pool) (k : ℕ) (c : Bool) (b : ℕ) → Quiet p (schedule_restart p k c) b
unfolding schedule_restart
schedule_restart-Quiet p k c b = ground arith

pub crash_section-Quiet : (p : Pool) (k now b : ℕ) → Quiet p (crash_section p k now).0 b
unfolding crash_section
crash_section-Quiet p k now b = ground arith

pub exit_section-Quiet :
    (p : Pool) (k a : ℕ) (c : Bool) (b : ℕ) → Quiet p (exit_section p k a c).0 b
unfolding exit_section
exit_section-Quiet p k a c b = ground (arith, length-modify bury p.heap a)

pub discard-Quiet : (p : Pool) (a b : ℕ) → Quiet p (discard p a) b
unfolding discard
discard-Quiet p a b = ground (arith, length-modify retire_worker p.heap a)

pub set_state-Quiet : (p : Pool) (a : ℕ) (st : State) (b : ℕ) → Quiet p (set_state p a st) b
set_state-Quiet p a st b = record {
  size = length-modify (with_state st) p.heap a;
  idles = omega arith;
}

length-task_heap : (t : Task) (heap : List Worker) → length (task_heap t heap) ≡ length heap
length-task_heap nothing heap = refl
length-task_heap (boot_task i) heap = refl
length-task_heap (drain_task a) heap = length-modify (with_state draining) heap a

heap-apply_task :
    (t : Task) (s : Slot) (heap : List Worker) (r : Plan) → (apply_task t s heap r).heap ≡ r.heap
heap-apply_task nothing s heap r = refl
heap-apply_task (boot_task i) s heap r = refl
heap-apply_task (drain_task a) s heap r = refl

length-scale_slots :
    (m : Mode) (c : Config) (n : ℕ) (heap : List Worker) (ss : List Slot)
    → length (scale_slots m c n heap ss).heap ≡ length heap
unfolding scale_slots
length-scale_slots m c n heap [] = refl
length-scale_slots m c n heap (s ∷ ss) =
    let t = scale_slot m c n heap s in
    ap length (heap-apply_task t s heap (scale_slots m c n (task_heap t heap) ss))
    ∙ length-scale_slots m c n (task_heap t heap) ss
    ∙ length-task_heap t heap

pub scale_section-Quiet : (p : Pool) (n b : ℕ) → Quiet p (scale_section p n).pool b
unfolding scale_section
scale_section-Quiet p n b =
    let m = clamp p.min_w p.max_w n in
    ground (
      arith,
      length-scale_slots p.mode p.cfg m p.heap (retire m 0 (grow (m - length p.slots) p.slots)),
    )

pub terminate-Quiet :
    (p : Pool) (a b : ℕ) → Quiet p (record p { heap = modify end_worker p.heap a }) b
terminate-Quiet p a b = record { size = length-modify end_worker p.heap a; idles = omega arith }

length-update_all :
    (f : Worker → Worker) (heap : List Worker) (xs : List ℕ)
    → length (update_all f heap xs) ≡ length heap
unfolding update_all
length-update_all f heap [] = refl
length-update_all f heap (a ∷ xs) =
    length-update_all f (modify f heap a) xs ∙ length-modify f heap a

pub shut_section-Quiet : (p : Pool) (b : ℕ) → Quiet p (shut_section p) b
unfolding shut_section
shut_section-Quiet p b = record {
  size = length-update_all shut_worker p.heap (remaining p.slots);
  idles = omega arith;
}

-- A send adds one entry at most.
pub count-send_idle :
    (p : Pool) (a b : ℕ)
    → (count b (send_idle p a).channel ≤ count b p.channel + to_nat (a == b))
      × (length (send_idle p a).heap ≡ length p.heap)
unfolding send_idle
count-send_idle p a b =
    ground (arith, count-append b p.channel (a ∷ []), count-cons b a [], count-nil b)

pub release_section-Quiet :
    (p : Pool) (a : ℕ) (resp : Option Meta) (b : ℕ) → Quiet p (release_section p a resp).0 b
unfolding release_section
release_section-Quiet p a resp b =
    let h = modify count_request p.heap a in
    ground (
      arith,
      length-modify count_request p.heap a,
      length-modify retire_worker h a,
      length-modify (with_state idle) h a,
    )

-- An install appends one worker, and hands out its address.
pub boot_install_cases :
    (p : Pool) (k : ℕ) (w : Worker)
    → ((boot_install p k w).0.channel ≡ p.channel)
      × (((boot_install p k w).1 ≡ none) × (length (boot_install p k w).0.heap ≡ length p.heap)
          ⊎ ((boot_install p k w).1 ≡ some (length p.heap))
            × (length (boot_install p k w).0.heap ≡ length p.heap + 1))
unfolding boot_install
boot_install_cases p k w = ground (arith, length-append p.heap (w ∷ []))
