-- ===== src/Worker/Acquire.antt =====
-- internal/worker/pool.go: `TryAcquire` and one round of `Acquire`.
pub mod Handout
pub mod Taken
use eregion.Prelude.{
  ℕ, zero, suc, ◌+◌, ◌-◌, ◌≤◌, ◌<◌, ◌≡◌, refl, Bool, true, false, ◌||◌, ◌&&◌, Option, none, some,
  List, [], ◌∷◌, ◌++◌, ltb, leb, ◌==◌, if◌then◌else◌, length, get_elem?, set, arith, keep, not, any,
}
use eregion.Worker.Types.{
  State, starting, idle, busy, draining, dead, failed, stopped, Mode, http, consumer, is_http,
  is_idle, Worker, Slot, Config, Pool, slot_at, put_slot, worker_at, set_state, is_retired,
  send_idle, is_current, with_state,
}

-- What the code does with a worker that it has received from the channel.
pub data Verdict : Type 0 where
  usable skipped refused : Verdict

-- The look at the slot under the lock, and the tests on what it found: `current` is the worker that the
-- slot had then, and generations do not change. An address outside the heap is no worker.
unfoldable pub look : Pool → ℕ → Verdict
look p a = elim (worker_at p a) [
  | none ↦ skipped
  | some w ↦ elim (slot_at p.slots w.slot) [
    | none ↦ skipped
    | some s ↦ if p.stopping then refused else if is_current p s w then usable else skipped
  ]
]

-- `w.getState() == StateIdle`, outside the lock.
unfoldable pub is_idle_at : Pool → ℕ → Bool
is_idle_at p a = elim (worker_at p a) [ none ↦ false | some w ↦ is_idle w.state ]

abbrev pub check_idle : Bool → Verdict → Verdict
check_idle idles usable = if idles then usable else skipped
check_idle idles skipped = skipped
check_idle idles refused = refused

-- Both tests, with nobody in between.
unfoldable pub inspect : Pool → ℕ → Verdict
unfolding look is_idle_at
inspect p a = check_idle (is_idle_at p a) (look p a)

-- The `for` loop of `TryAcquire`, over what the channel holds.
unfoldable pub try_loop : Pool → List ℕ → Pool × Option ℕ
unfolding inspect
try_loop p [] = (record p { channel = [] }, none)
try_loop p (a ∷ rest) =
    let more = try_loop p rest in
    elim (inspect p a) [
      | usable ↦ (set_state (record p { channel = rest }) a busy, some a)
      | skipped ↦ more
      | refused ↦ (record p { channel = rest }, none)
    ]

unfoldable pub try_acquire : Pool → Pool × Option ℕ
unfolding try_loop
try_acquire p =
    if not (is_http p.mode)
    then (p, none)
    else if p.stopping
    then (p, none)
    else try_loop p p.channel

pub data AcquireError : Type 0 where
  no_workers acquire_timeout request_cancelled shutting_down : AcquireError

-- Which case of the `select` in `Acquire` was ready.
pub data Ready : Type 0 where
  deadline_passed cancelled pool_done received : Ready

pub data Acquiring : Type 0 where
  again : Acquiring
  acquired : ℕ → Acquiring
  gave_up : AcquireError → Acquiring

abbrev pub receive : Pool → List ℕ → Pool × Acquiring
receive p [] = (p, again)
receive p (a ∷ rest) = elim (inspect p a) [
  | usable ↦ (set_state (record p { channel = rest }) a busy, acquired a)
  | skipped ↦ (record p { channel = rest }, again)
  | refused ↦ (record p { channel = rest }, gave_up shutting_down)
]

-- One round of the loop of `Acquire`; a receive from an empty channel goes on waiting.
unfoldable pub acquire_round : Pool → Ready → Pool × Acquiring
unfolding inspect
acquire_round p deadline_passed = (p, gave_up acquire_timeout)
acquire_round p cancelled = (p, gave_up request_cancelled)
acquire_round p pool_done = (p, gave_up shutting_down)
acquire_round p received = receive p p.channel

unfoldable pub acquire_on : List Ready → Pool × Acquiring → Pool × Acquiring
unfolding acquire_round
acquire_on [] r = r
acquire_on (c ∷ cs) (p, again) = acquire_on cs (acquire_round p c)
acquire_on (c ∷ cs) (p, acquired a) = (p, acquired a)
acquire_on (c ∷ cs) (p, gave_up e) = (p, gave_up e)

-- Acquire with nobody in between, along the cases that become ready; `again` where they do not
-- decide it.
unfoldable pub acquire : Pool → List Ready → Pool × Acquiring
unfolding acquire_on
acquire p cs = if not (is_http p.mode) then (p, gave_up no_workers) else acquire_on cs (p, again)
