-- ===== src/Worker/System/Exclusive.antt =====
-- No worker serves two requests at once.
use eregion.Prelude.{
  ℕ, Bool, true, false, List, ◌==◌, to_nat, ◌+◌, ◌≤◌, ◌≡◌, some, length, arith, get_elem?, ap,
}
use eregion.Prelude.Counts.{count, count-nil, count-cons, count-remove, count_unique, count-pos}
use eregion.Worker.Types.{busy, stopped, Pool}
use eregion.Worker.Acquire.{Verdict, usable, skipped, refused, look, is_idle_at}
use eregion.Worker.System.{
  System, Step, Reach, here, next, IsInitial, begin_boot, fail_boot, install, publish, restart,
  receive, mark, release, give_back, discard_worker, exited, crashed, purge_receive, purge_send,
  scale, terminate, stop, shut_idle, shut_slots, look_at, check, add_looked, add_if,
}
use eregion.Worker.System.Effects.{
  Quiet, boot_begin-Quiet, boot_fail-Quiet, schedule_restart-Quiet, crash_section-Quiet,
  exit_section-Quiet, discard-Quiet, set_state-Quiet, scale_section-Quiet, terminate-Quiet,
  shut_section-Quiet, count-send_idle, release_section-Quiet, boot_install_cases,
}

-- In how many hands, the channel included, the worker at `b` is.
abbrev hands : System → ℕ → ℕ
hands s b =
    count b s.pool.channel
    + count b s.fresh
    + count b s.received
    + count b s.looked
    + count b s.taken
    + count b s.leased
    + count b s.returned
    + count b s.purged

-- Each worker is in one hand at most, and none that does not exist is in any.
record Inv (s : System) (b : ℕ) : Type 0 where
  single : hands s b ≤ 1
  known : length s.pool.heap ≤ b → hands s b ≡ 0

-- In how many hands the worker at `b` is, but for those of the requests that use it.
abbrev pub elsewhere : System → ℕ → ℕ
elsewhere s b =
    count b s.pool.channel
    + count b s.fresh
    + count b s.received
    + count b s.looked
    + count b s.taken
    + count b s.returned
    + count b s.purged

-- A step that only changes the pool, quietly.
Quiet-Inv :
    {s : System} {q : Pool} (b : ℕ) → Quiet s.pool q b → Inv s b → Inv (record s { pool = q }) b
Quiet-Inv b v i = omega arith

count-add_looked :
    (v : Verdict) (a : ℕ) (xs : List ℕ) (b : ℕ)
    → count b (add_looked v a xs) ≤ count b xs + to_nat (a == b)
count-add_looked usable a xs b = omega (arith, count-cons b a xs)
count-add_looked skipped a xs b = omega arith
count-add_looked refused a xs b = omega arith

count-add_if :
    (v : Bool) (a : ℕ) (xs : List ℕ) (b : ℕ)
    → count b (add_if v a xs) ≤ count b xs + to_nat (a == b)
count-add_if true a xs b = omega (arith, count-cons b a xs)
count-add_if false a xs b = omega arith

Step-Inv : {s t : System} (b : ℕ) → Step s t → Inv s b → Inv t b
Step-Inv {s} b (begin_boot k) i = Quiet-Inv b (boot_begin-Quiet s.pool k b) i
Step-Inv {s} b (fail_boot k c now) i = Quiet-Inv b (boot_fail-Quiet s.pool k c now b) i
Step-Inv {s} b (install k w) i =
    ground (arith, boot_install_cases s.pool k w, count-cons b (length s.pool.heap) s.fresh)
Step-Inv {s} b (publish a h) i =
    omega (arith, count-send_idle s.pool a b, count-remove b a s.fresh h)
Step-Inv {s} b (restart k c) i = Quiet-Inv b (schedule_restart-Quiet s.pool k c b) i
Step-Inv {s} b (receive a rest e) i =
    omega (arith, ap (count b) e, count-cons b a rest, count-cons b a s.received)
Step-Inv {s} b (look_at a h) i =
    omega (arith, count-remove b a s.received h, count-add_looked (look s.pool a) a s.looked b)
Step-Inv {s} b (check a h) i =
    omega (arith, count-remove b a s.looked h, count-add_if (is_idle_at s.pool a) a s.taken b)
Step-Inv {s} b (mark a h) i =
    omega
      (arith, set_state-Quiet s.pool a busy b, count-remove b a s.taken h, count-cons b a s.leased)
Step-Inv {s} b (release a resp h) i = ground (
  arith,
  release_section-Quiet s.pool a resp b,
  count-remove b a s.leased h,
  count-cons b a s.returned,
)
Step-Inv {s} b (give_back a h) i =
    omega (arith, count-send_idle s.pool a b, count-remove b a s.returned h)
Step-Inv {s} b (discard_worker a h) i =
    omega (arith, discard-Quiet s.pool a b, count-remove b a s.leased h)
Step-Inv {s} b (exited k a c) i = Quiet-Inv b (exit_section-Quiet s.pool k a c b) i
Step-Inv {s} b (crashed k now) i = Quiet-Inv b (crash_section-Quiet s.pool k now b) i
Step-Inv {s} b (purge_receive gone a rest e) i =
    ground (arith, ap (count b) e, count-cons b a rest, count-cons b a s.purged)
Step-Inv {s} b (purge_send a h) i =
    omega (arith, count-send_idle s.pool a b, count-remove b a s.purged h)
Step-Inv {s} b (scale n) i = Quiet-Inv b (scale_section-Quiet s.pool n b) i
Step-Inv {s} b (terminate a) i = Quiet-Inv b (terminate-Quiet s.pool a b) i
Step-Inv {s} b stop i = omega arith
Step-Inv {s} b (shut_idle a rest e) i =
    let q = record s.pool { channel = rest } in
    omega (arith, ap (count b) e, count-cons b a rest, set_state-Quiet q a stopped b)
Step-Inv {s} b shut_slots i = Quiet-Inv b (shut_section-Quiet s.pool b) i

IsInitial-Inv : {s : System} (b : ℕ) → IsInitial s → Inv s b
IsInitial-Inv b i = omega (
  arith,
  count-nil b,
  ap (count b) i.no_idle,
  ap (count b) i.no_fresh,
  ap (count b) i.no_received,
  ap (count b) i.no_looked,
  ap (count b) i.no_taken,
  ap (count b) i.no_leased,
  ap (count b) i.no_returned,
  ap (count b) i.no_purged,
)

Reach-Inv : {s t : System} (b : ℕ) → IsInitial s → Reach s t → Inv t b
Reach-Inv b i here = IsInitial-Inv b i
Reach-Inv b i (next r st) = Step-Inv b st (Reach-Inv b i r)

-- However the steps of a pool's goroutines follow each other, from its start on: a worker is in use by one
-- request at most (the positions of two requests that use it are the same), and while a request uses it, it
-- stands neither in the channel nor in the hands of anybody who is about to send it there, or who has
-- received it from there, to take it or to purge the channel.
pub leased_once :
    {s t : System} {i j a : ℕ}
    → IsInitial s
    → Reach s t
    → get_elem? t.leased i ≡ some a
    → get_elem? t.leased j ≡ some a
    → (i ≡ j) × (elsewhere t a ≡ 0)
leased_once {s} {t} {i} {j} {a} init r p q =
    let inv = Reach-Inv a init r in
    let here' = count-pos a t.leased i p in
    (count_unique a t.leased i j (omega (arith, inv.single)) p q, omega (arith, inv.single, here'))
