-- ===== src/Worker/Acquire/Taken.antt =====
-- What `TryAcquire` and `Acquire` do to the workers: the one handed out is marked busy, and no other
-- is touched.
use eregion.Prelude.{
  ℕ, ◌≡◌, refl, sym, ap, ◌∙◌, Bool-cases, arith, List, [], ◌∷◌, Option, none, some, modify,
  get_elem?, inl, inr,
}
use mathlib.Core.Path.{subst}
use eregion.Worker.Types.{Slot, Worker, Pool, busy, set_state, with_state, slot_at, is_http}
use eregion.Worker.Acquire.{
  usable, skipped, refused, inspect, shutting_down, try_loop, try_acquire, Ready, deadline_passed,
  cancelled, pool_done, received, Acquiring, again, acquired, gave_up, receive, acquire_round,
  acquire_on, acquire,
}
use eregion.Worker.Acquire.Handout.{IsFree, usable-IsFree, Verdict-cases}

-- A pool with the workers and slots of another, and whatever channel.
pub record IsSame (p q : Pool) : Type 0 where
  pub heap : q.heap ≡ p.heap
  pub slots : q.slots ≡ p.slots

-- A free worker of `p` is marked busy in `q`.
pub record IsTaken (p q : Pool) (a : ℕ) : Type 0 where
  pub free : IsFree p a
  pub heap : q.heap ≡ modify (with_state busy) p.heap a
  pub slots : q.slots ≡ p.slots

same : (p : Pool) (channel : List ℕ) → IsSame p (record p { channel = channel })
same p channel = record { heap = refl; slots = refl }

IsSame-IsFree : {p q : Pool} {a : ℕ} → IsSame p q → IsFree q a → IsFree p a
IsSame-IsFree {p} {q} {a} s f = record {
  worker = f.worker;
  slot = f.slot;
  current = f.current;
  owner = f.owner;
  found = sym (ap (λ (h : List Worker). get_elem? h a) s.heap) ∙ f.found;
  is_idle = f.is_idle;
  at_slot = sym (ap (λ (ss : List Slot). slot_at ss f.worker.slot) s.slots) ∙ f.at_slot;
  held = f.held;
  owned = sym (ap (λ (h : List Worker). get_elem? h f.current) s.heap) ∙ f.owned;
  same = f.same;
}

pub IsSame-IsTaken : {p q r : Pool} {a : ℕ} → IsSame p q → IsTaken q r a → IsTaken p r a
IsSame-IsTaken {p} {q} {r} {a} s t = record {
  free = IsSame-IsFree s t.free;
  heap = t.heap ∙ ap (λ (h : List Worker). modify (with_state busy) h a) s.heap;
  slots = t.slots ∙ s.slots;
}

pub IsSame-trans : {p q r : Pool} → IsSame p q → IsSame q r → IsSame p r
IsSame-trans s t = record { heap = t.heap ∙ s.heap; slots = t.slots ∙ s.slots }

abbrev pub Took : Pool → Pool × Option ℕ → Type 0
Took p (q, none) = IsSame p q
Took p (q, some a) = IsTaken p q a

abbrev pub Got : Pool → Pool × Acquiring → Type 0
Got p (q, again) = IsSame p q
Got p (q, acquired a) = IsTaken p q a
Got p (q, gave_up e) = IsSame p q

try_loop-Took : (p : Pool) (xs : List ℕ) → Took p (try_loop p xs)
unfolding try_loop
try_loop-Took p [] = same p []
try_loop-Took p (x ∷ xs) = elim (Verdict-cases (inspect p x)) [
  | inl u ↦ rw (u, try_loop) (record { free = usable-IsFree p x u; heap = refl; slots = refl })
  | inr (inl s) ↦ rw (s, try_loop) (try_loop-Took p xs)
  | inr (inr r) ↦ rw (r, try_loop) (same p xs)
]

pub try_acquire-Took : (p : Pool) → Took p (try_acquire p)
unfolding try_acquire
try_acquire-Took p = elim (Bool-cases (is_http p.mode)) [
  | inr e ↦ simp e (same p p.channel)
  | inl e ↦ elim (Bool-cases p.stopping) [
    | inl f ↦ simp (e, f) (same p p.channel)
    | inr f ↦ simp (e, f) (try_loop-Took p p.channel)
  ]
]

receive-usable :
    (p : Pool) (x : ℕ) (xs : List ℕ)
    → inspect p x ≡ usable
    → receive p (x ∷ xs) ≡ (set_state (record p { channel = xs }) x busy, acquired x)
receive-usable p x xs u = ground arith

receive-skipped :
    (p : Pool) (x : ℕ) (xs : List ℕ)
    → inspect p x ≡ skipped
    → receive p (x ∷ xs) ≡ (record p { channel = xs }, again)
receive-skipped p x xs s = ground arith

receive-refused :
    (p : Pool) (x : ℕ) (xs : List ℕ)
    → inspect p x ≡ refused
    → receive p (x ∷ xs) ≡ (record p { channel = xs }, gave_up shutting_down)
receive-refused p x xs r = ground arith

receive-Got : (p : Pool) (xs : List ℕ) → Got p (receive p xs)
receive-Got p [] = same p p.channel
receive-Got p (x ∷ xs) = elim (Verdict-cases (inspect p x)) [
  | inl u ↦
      subst (Got p) (sym (receive-usable p x xs u))
        (record { free = usable-IsFree p x u; heap = refl; slots = refl })
  | inr (inl s) ↦ subst (Got p) (sym (receive-skipped p x xs s)) (same p xs)
  | inr (inr r) ↦ subst (Got p) (sym (receive-refused p x xs r)) (same p xs)
]

acquire_round-Got : (p : Pool) (c : Ready) → Got p (acquire_round p c)
unfolding acquire_round
acquire_round-Got p deadline_passed = same p p.channel
acquire_round-Got p cancelled = same p p.channel
acquire_round-Got p pool_done = same p p.channel
acquire_round-Got p received = receive-Got p p.channel

pub Got-trans : {p q : Pool} → IsSame p q → (r : Pool × Acquiring) → Got q r → Got p r
Got-trans s (r, again) g = IsSame-trans s g
Got-trans s (r, acquired a) g = IsSame-IsTaken s g
Got-trans s (r, gave_up e) g = IsSame-trans s g

acquire_on-Got :
    (p : Pool) (cs : List Ready) (r : Pool × Acquiring) → Got p r → Got p (acquire_on cs r)
unfolding acquire_on
acquire_on-Got p [] r g = g
acquire_on-Got p (c ∷ cs) (q, again) g =
    acquire_on-Got p cs (acquire_round q c)
      (Got-trans g (acquire_round q c) (acquire_round-Got q c))
acquire_on-Got p (c ∷ cs) (q, acquired a) g = g
acquire_on-Got p (c ∷ cs) (q, gave_up e) g = g

pub acquire-Got : (p : Pool) (cs : List Ready) → Got p (acquire p cs)
unfolding acquire
acquire-Got p cs = elim (Bool-cases (is_http p.mode)) [
  | inr e ↦ simp e (same p p.channel)
  | inl e ↦ simp e (acquire_on-Got p cs (p, again) (same p p.channel))
]
