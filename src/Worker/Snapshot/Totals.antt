-- ===== src/Worker/Snapshot/Totals.antt =====
-- The counters of a snapshot add up.
use eregion.Prelude.{ℕ, ◌+◌, ◌≤◌, ◌≡◌, refl, ◌∙◌, none, some, List, [], ◌∷◌, length, arith}
use eregion.Worker.Types.{State, dead, stopped, Slot, Pool, worker_at}
use eregion.Worker.Snapshot.{PoolSnapshot, tally, tally_all, blank, snapshot, healthy_count}

-- `ending` counts the slots whose worker is dead or stopped and still held.
abbrev is_over : State → ℕ
is_over dead = 1
is_over stopped = 1
is_over _ = 0

abbrev over : Pool → Slot → ℕ
over p s = elim s.worker [
  | none ↦ 0
  | some a ↦ elim (worker_at p a) [ none ↦ 0 | some w ↦ is_over w.state ]
]

pub over_all : Pool → List Slot → ℕ
over_all p [] = 0
over_all p (s ∷ ss) = over p s + over_all p ss

-- What one slot changes: the running workers are the healthy ones and those that are over, and
-- each slot is counted at most once.
tally_one :
    (p : Pool) (s : Slot) (c : PoolSnapshot)
    → let d = tally p s c in
      (d.running + healthy_count c ≡ c.running + healthy_count d + over p s)
      × (d.running + d.booting + d.failing ≤ c.running + c.booting + c.failing + 1)
      × (d.desired ≡ c.desired)
      × (d.waiting ≡ c.waiting)
      × (d.capacity ≡ c.capacity)
unfolding tally healthy_count
tally_one p s c = ground arith

tally_many :
    (p : Pool) (ss : List Slot) (c : PoolSnapshot)
    → let d = tally_all p ss c in
      (d.running + healthy_count c ≡ c.running + healthy_count d + over_all p ss)
      × (d.running + d.booting + d.failing ≤ c.running + c.booting + c.failing + length ss)
      × (d.desired ≡ c.desired)
      × (d.waiting ≡ c.waiting)
      × (d.capacity ≡ c.capacity)
unfolding tally_all over_all
tally_many p [] c = (omega arith, omega arith, refl, refl, refl)
tally_many p (s ∷ ss) c =
    let (r, t, d, w, q) = tally_many p ss (tally p s c) in
    let (r', t', d', w', q') = tally_one p s c in (omega arith, omega arith, d ∙ d', w ∙ w', q ∙ q')

-- A snapshot's running workers are its healthy ones (idle, busy or draining) and those of slots
-- that still hold a dead or stopped worker; running, starting and failed together are no more than
-- the slots; and it shows the pool's size, the queue's length as given and the queue's capacity.
pub snapshot_totals :
    (p : Pool) (waiting : ℕ)
    → let c = snapshot p waiting in
      (c.running ≡ healthy_count c + over_all p p.slots)
      × (c.running + c.booting + c.failing ≤ length p.slots)
      × (c.desired ≡ p.desired)
      × (c.waiting ≡ waiting)
      × (c.capacity ≡ p.cfg.queue_capacity)
unfolding snapshot healthy_count
snapshot_totals p waiting =
    let (r, t, d, w, q) = tally_many p p.slots (blank p waiting) in
    (omega arith, omega arith, d, w, q)
