-- ===== src/Worker/Release/Workers.antt =====
-- What `Release` and `Discard` do to a worker that was handed out while nobody came in between.
use eregion.Prelude.{
  ℕ, ◌≡◌, refl, sym, ap, ◌∙◌, true, Bool-cases, List, Option, some, modify, get_elem?,
  get_elem?-modify_self, get_elem?-modify_ne, modify-modify, inl, inr, ◌⊎◌, arith,
}
use native.Mathlib.Decide.{ℕ_discrete}
use eregion.Worker.Types.{
  Slot, Worker, Pool, idle, busy, with_state, slot_at, worker_at, is_current, send_idle,
}
use eregion.Worker.Acquire.Taken.{IsTaken}
use eregion.Worker.Release.Outcome.{ends, section_kept, section_ending}
use eregion.Worker.Release.{
  Meta, Released, count_request, retire_worker, finish_release, release, discard,
}

-- A worker that is taken, as the pool has it then.
pub record IsHeld (q : Pool) (a : ℕ) (w : Worker) : Type 0 where
  pub slot : Slot
  pub found : worker_at q a ≡ some (with_state busy w)
  pub at_slot : slot_at q.slots w.slot ≡ some slot
  pub current : is_current q slot (with_state busy w) ≡ true

same_generation :
    (q : Pool) (s : Slot) (w v : Worker) (c : ℕ)
    → s.worker ≡ some c
    → worker_at q c ≡ some v
    → v.generation ≡ w.generation
    → is_current q s w ≡ true
same_generation q s w v c h f g = ground arith

IsTaken-IsHeld : {p q : Pool} {a : ℕ} (t : IsTaken p q a) → IsHeld q a t.free.worker
IsTaken-IsHeld {p} {q} {a} t =
    let f = t.free in
    let w = with_state busy f.worker in
    let found =
      ap (λ (h : List Worker). get_elem? h a) t.heap
      ∙ get_elem?-modify_self (with_state busy) p.heap a f.worker f.found in
    record {
      slot = f.slot;
      found = found;
      at_slot = ap (λ (ss : List Slot). slot_at ss f.worker.slot) t.slots ∙ f.at_slot;
      current = elim (ℕ_discrete a f.current) [
        | yes e ↦ same_generation q f.slot w w a (f.held ∙ ap some (sym e)) found refl
        | no n ↦
            same_generation q f.slot w f.owner f.current f.held
              (ap (λ (h : List Worker). get_elem? h f.current) t.heap
                ∙ (get_elem?-modify_ne (with_state busy) p.heap a f.current n ∙ f.owned))
              f.same
      ];
    }

heap-send_idle : (p : Pool) (a : ℕ) → (send_idle p a).heap ≡ p.heap
unfolding send_idle
heap-send_idle p a = ground arith

-- Counted and idle again.
abbrev pub put_back : Worker → Worker
put_back w = with_state idle (count_request w)

-- Counted and on its way to its end.
abbrev pub counted_out : Worker → Worker
counted_out w = retire_worker (count_request w)

heap-release :
    (q : Pool) (a : ℕ) (w : Worker) (resp : Option Meta)
    → IsHeld q a w
    → ((release q a resp).heap ≡ modify put_back q.heap a)
      ⊎ ((release q a resp).heap ≡ modify counted_out q.heap a)
unfolding release finish_release
heap-release q a w resp h =
    let b = with_state busy w in
    elim (Bool-cases (ends q b h.slot resp)) [
      | inl e ↦ inr (
          ap (λ (r : Pool × Released). (finish_release a r).heap)
            (section_ending q a b h.slot resp h.found h.at_slot h.current e)
          ∙ modify-modify retire_worker count_request q.heap a)
      | inr e ↦ inl (
          ap (λ (r : Pool × Released). (finish_release a r).heap)
            (section_kept q a b h.slot resp h.found h.at_slot h.current e)
          ∙ (heap-send_idle _ a ∙ modify-modify (with_state idle) count_request q.heap a))
    ]

heap-discard :
    (q : Pool) (a : ℕ) (w : Worker)
    → IsHeld q a w
    → (discard q a).heap ≡ modify retire_worker q.heap a
unfolding discard
heap-discard q a w h = ground (arith, h)

over_busy :
    {p q : Pool} {a : ℕ} (f : Worker → Worker)
    → IsTaken p q a
    → modify f q.heap a ≡ modify (λ w. f (with_state busy w)) p.heap a
over_busy {p} {q} {a} f t =
    ap (λ (h : List Worker). modify f h a) t.heap ∙ modify-modify f (with_state busy) p.heap a

-- Of a worker that was free in `p`: released, it is idle again or goes to its end.
pub release-IsTaken :
    {p q : Pool} {a : ℕ} (resp : Option Meta)
    → IsTaken p q a
    → ((release q a resp).heap ≡ modify put_back p.heap a)
      ⊎ ((release q a resp).heap ≡ modify counted_out p.heap a)
release-IsTaken {p} {q} {a} resp t = elim (heap-release q a t.free.worker resp (IsTaken-IsHeld t)) [
  | inl e ↦ inl (e ∙ over_busy put_back t)
  | inr e ↦ inr (e ∙ over_busy counted_out t)
]

pub discard-IsTaken :
    {p q : Pool} {a : ℕ} → IsTaken p q a → (discard q a).heap ≡ modify retire_worker p.heap a
discard-IsTaken {p} {q} {a} t =
    heap-discard q a t.free.worker (IsTaken-IsHeld t) ∙ over_busy retire_worker t
