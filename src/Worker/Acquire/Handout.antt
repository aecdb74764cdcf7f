-- ===== src/Worker/Acquire/Handout.antt =====
-- Which worker `TryAcquire` hands out.
use eregion.Prelude.{
  ℕ, ◌≡◌, refl, ap, false, List, [], ◌∷◌, ◌++◌, Option, none, some, All, arith, inl, inr, ◌⊎◌,
  Option-cases,
}
use eregion.Worker.Types.{Slot, Worker, Pool, http, idle, busy, slot_at, worker_at, set_state}
use eregion.Worker.Acquire.{Verdict, usable, skipped, refused, inspect, try_loop, try_acquire}

-- An idle worker of a slot whose current worker has the same generation: what may be handed out.
pub record IsFree (p : Pool) (a : ℕ) : Type 0 where
  pub worker : Worker
  pub slot : Slot
  pub current : ℕ
  pub owner : Worker
  pub found : worker_at p a ≡ some worker
  pub is_idle : worker.state ≡ idle
  pub at_slot : slot_at p.slots worker.slot ≡ some slot
  pub held : slot.worker ≡ some current
  pub owned : worker_at p current ≡ some owner
  pub same : owner.generation ≡ worker.generation

abbrev pub Skips : Pool → List ℕ → Type 0
Skips p xs = All (λ x. ¬ IsFree p x) xs

-- `a` is the first entry of the channel that is free.
pub record FirstFree (p : Pool) (xs : List ℕ) (a : ℕ) : Type 0 where
  pub front : List ℕ
  pub rest : List ℕ
  pub split : xs ≡ front ++ (a ∷ rest)
  pub passed : Skips p front
  pub fits : IsFree p a

pub Verdict-cases : (v : Verdict) → (v ≡ usable) ⊎ ((v ≡ skipped) ⊎ (v ≡ refused))
Verdict-cases usable = inl refl
Verdict-cases skipped = inr (inl refl)
Verdict-cases refused = inr (inr refl)

inspect-ne-refused : (p : Pool) (a : ℕ) → p.stopping ≡ false → inspect p a ≡ refused → ⊥
unfolding inspect
inspect-ne-refused p a h e = ground arith

abbrev pub Outcome : Pool → List ℕ → Pool × Option ℕ → Type 0
Outcome p xs (q, none) = Skips p xs × (q ≡ record p { channel = [] })
Outcome p xs (q, some a) =
    (f : FirstFree p xs a) × (q ≡ set_state (record p { channel = f.rest }) a busy)

pub usable-IsFree : (p : Pool) (a : ℕ) → inspect p a ≡ usable → IsFree p a
unfolding inspect
usable-IsFree p a e = elim (Option-cases (worker_at p a)) [
  | inl f ↦ absurd (ground arith)
  | inr (w, f) ↦ elim (Option-cases (slot_at p.slots w.slot)) [
    | inl g ↦ absurd (ground arith)
    | inr (s, g) ↦ elim (Option-cases s.worker) [
      | inl k ↦ absurd (ground arith)
      | inr (c, k) ↦ elim (Option-cases (worker_at p c)) [
        | inl m ↦ absurd (ground arith)
        | inr (v, m) ↦ record {
          worker = w;
          slot = s;
          current = c;
          owner = v;
          found = f;
          is_idle = ground arith;
          at_slot = g;
          held = k;
          owned = m;
          same = ground arith;
        }
      ]
    ]
  ]
]

IsFree-inspect : (p : Pool) (a : ℕ) → IsFree p a → inspect p a ≡ skipped → ⊥
unfolding inspect
IsFree-inspect p a f e = ground (arith, f)

pass :
    (p : Pool) (x : ℕ) (xs : List ℕ) (r : Pool × Option ℕ)
    → ¬ IsFree p x
    → Outcome p xs r
    → Outcome p (x ∷ xs) r
pass p x xs (q, none) e o = ((e, o.0), o.1)
pass p x xs (q, some a) e (f, h) = (
  record {
    front = x ∷ f.front;
    rest = f.rest;
    split = ap (◌∷◌ x) f.split;
    passed = (e, f.passed);
    fits = f.fits;
  },
  h,
)

try_loop-Outcome : (p : Pool) (xs : List ℕ) → p.stopping ≡ false → Outcome p xs (try_loop p xs)
unfolding try_loop
try_loop-Outcome p [] h = (tt, refl)
try_loop-Outcome p (x ∷ xs) h = elim (Verdict-cases (inspect p x)) [
  | inl u ↦
      rw (u, try_loop)
        (
          record { front = []; rest = xs; split = refl; passed = tt; fits = usable-IsFree p x u },
          refl,
        )
  | inr (inl s) ↦
      rw (s, try_loop)
        (pass p x xs (try_loop p xs) (λ f. IsFree-inspect p x f s) (try_loop-Outcome p xs h))
  | inr (inr r) ↦ absurd (inspect-ne-refused p x h r)
]

-- On an HTTP pool that is not stopping, `TryAcquire` hands out the first worker of the channel
-- that is idle and of the generation that its slot's worker has, marks it busy, and drops exactly
-- the entries up to it; if it hands out none, then no entry was such a worker, and the channel is
-- empty afterwards.
pub try_acquire-Outcome :
    (p : Pool) → p.mode ≡ http → p.stopping ≡ false → Outcome p p.channel (try_acquire p)
unfolding try_acquire
try_acquire-Outcome p m h = simp (m, h) (try_loop-Outcome p p.channel h)
