-- ===== src/Worker/System.antt =====
-- The pool under concurrent use: the critical sections and channel operations of pool.go as the
-- steps of one transition relation, in any order. Addresses that a goroutine holds between two of
-- its steps are in the lists beside the pool. `purgeIdle` keeps the lock through its loop, whose
-- receives and sends are steps of their own here, since `Acquire`, `Release`, `bootSlot` and `Shutdown`
-- use the channel without the lock; so there are more paths here than the lock allows. `Release`
-- counts its request, and `Release` and `Discard` close the connection and signal, in the step of
-- their critical section.
mod Effects
pub mod Exclusive
pub mod Races
use eregion.Prelude.{
  ℕ, suc, ◌+◌, ◌≤◌, ◌<◌, ◌≡◌, refl, Bool, true, false, List, [], ◌∷◌, ◌++◌, Option, none, some,
  length, modify, if◌then◌else◌,
}
use eregion.Prelude.Counts.{count, remove}
use eregion.Worker.Types.{State, idle, busy, stopped, Pool, Worker, set_state, send_idle}
use eregion.Worker.Boot.{Ticket, started, boot_begin, boot_fail, boot_install, schedule_restart}
use eregion.Worker.Monitor.{Exit, exit_section, crash_section, same_worker}
use eregion.Worker.Scale.{Scaled, scale_section, end_worker}
use eregion.Worker.Acquire.{Verdict, usable, skipped, refused, look, is_idle_at}
use eregion.Worker.Release.{Meta, Released, returning, forgotten, ending, release_section, discard}
use eregion.Worker.Shutdown.{shut_section}

-- `fresh`: installed by `bootSlot`, not yet sent to the channel. `received`: received by `TryAcquire`
-- or `Acquire`. `looked`: found to be its slot's under the lock. `taken`: found idle after that, not
-- yet marked busy. `leased`: in use by a request. `returned`: marked idle by `Release`, not yet sent.
-- `purged`: received by `purgeIdle`, to be sent back.
pub record System : Type 0 where
  pub pool : Pool
  pub fresh : List ℕ
  pub received : List ℕ
  pub looked : List ℕ
  pub taken : List ℕ
  pub leased : List ℕ
  pub returned : List ℕ
  pub purged : List ℕ

abbrev pub add_booted : Option ℕ → List ℕ → List ℕ
add_booted none fresh = fresh
add_booted (some a) fresh = a ∷ fresh

abbrev pub add_looked : Verdict → ℕ → List ℕ → List ℕ
add_looked usable a looked = a ∷ looked
add_looked _ a looked = looked

abbrev pub add_if : Bool → ℕ → List ℕ → List ℕ
add_if true a xs = a ∷ xs
add_if false a xs = xs

abbrev pub add_returned : Released → ℕ → List ℕ → List ℕ
add_returned returning a returned = a ∷ returned
add_returned _ a returned = returned

pub data Step (s : System) : System → Type 0 where
  begin_boot : (k : ℕ) → Step s (record s { pool = (boot_begin s.pool k).0 })
  fail_boot :
      (k : ℕ) (after_crash : Bool) (now : ℕ)
      → Step s (record s { pool = (boot_fail s.pool k after_crash now).0 })
  install :
      (k : ℕ) (w : Worker)
      → Step s (record s {
        pool = (boot_install s.pool k w).0;
        fresh = add_booted (boot_install s.pool k w).1 s.fresh;
      })
  publish :
      (a : ℕ)
      → 0 < count a s.fresh
      → Step s (record s { pool = send_idle s.pool a; fresh = remove a s.fresh })
  restart :
      (k : ℕ) (use_backoff : Bool)
      → Step s (record s { pool = schedule_restart s.pool k use_backoff })
  receive :
      (a : ℕ) (rest : List ℕ)
      → s.pool.channel ≡ a ∷ rest
      → Step s (record s { pool = record s.pool { channel = rest }; received = a ∷ s.received })
  look_at :
      (a : ℕ)
      → 0 < count a s.received
      → Step s (record s {
        received = remove a s.received;
        looked = add_looked (look s.pool a) a s.looked;
      })
  check :
      (a : ℕ)
      → 0 < count a s.looked
      → Step s
          (record s { looked = remove a s.looked; taken = add_if (is_idle_at s.pool a) a s.taken })
  mark :
      (a : ℕ)
      → 0 < count a s.taken
      → Step s (record s {
        pool = set_state s.pool a busy;
        taken = remove a s.taken;
        leased = a ∷ s.leased;
      })
  release :
      (a : ℕ) (resp : Option Meta)
      → 0 < count a s.leased
      → Step s (record s {
        pool = (release_section s.pool a resp).0;
        leased = remove a s.leased;
        returned = add_returned (release_section s.pool a resp).1 a s.returned;
      })
  give_back :
      (a : ℕ)
      → 0 < count a s.returned
      → Step s (record s { pool = send_idle s.pool a; returned = remove a s.returned })
  discard_worker :
      (a : ℕ)
      → 0 < count a s.leased
      → Step s (record s { pool = discard s.pool a; leased = remove a s.leased })
  exited : (k a : ℕ) (clean : Bool) → Step s (record s { pool = (exit_section s.pool k a clean).0 })
  crashed : (k now : ℕ) → Step s (record s { pool = (crash_section s.pool k now).0 })
  purge_receive :
      (gone a : ℕ) (rest : List ℕ)
      → s.pool.channel ≡ a ∷ rest
      → Step s (record s {
        pool = record s.pool { channel = rest };
        purged = if same_worker s.pool.heap a gone then s.purged else a ∷ s.purged;
      })
  purge_send :
      (a : ℕ)
      → 0 < count a s.purged
      → Step s (record s { pool = send_idle s.pool a; purged = remove a s.purged })
  scale : (n : ℕ) → Step s (record s { pool = (scale_section s.pool n).pool })
  terminate :
      (a : ℕ)
      → Step s (record s { pool = record s.pool { heap = modify end_worker s.pool.heap a } })
  stop : Step s (record s { pool = record s.pool { stopping = true } })
  shut_idle :
      (a : ℕ) (rest : List ℕ)
      → s.pool.channel ≡ a ∷ rest
      → Step s (record s { pool = set_state (record s.pool { channel = rest }) a stopped })
  shut_slots : Step s (record s { pool = shut_section s.pool })

pub data Reach (s : System) : System → Type 0 where
  here : Reach s s
  next : {t u : System} → Reach s t → Step t u → Reach s u

-- A pool as `NewWorkloadPool` and `Start` leave it: no worker yet, and nobody holds one.
pub record IsInitial (s : System) : Type 0 where
  pub no_workers : s.pool.heap ≡ []
  pub no_idle : s.pool.channel ≡ []
  pub no_fresh : s.fresh ≡ []
  pub no_received : s.received ≡ []
  pub no_looked : s.looked ≡ []
  pub no_taken : s.taken ≡ []
  pub no_leased : s.leased ≡ []
  pub no_returned : s.returned ≡ []
  pub no_purged : s.purged ≡ []
