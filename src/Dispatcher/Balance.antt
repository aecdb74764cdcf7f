-- ===== src/Dispatcher/Balance.antt =====
-- What `ServeHTTP` takes it gives back: the place in the queue, the gauge and the worker.
use eregion.Prelude.{ℕ, suc, ◌≡◌, modify, List, [], ◌∷◌, ◌⊎◌}
use eregion.Worker.Release.{Meta, retire_worker}
use eregion.Worker.Types.{Pool, Worker}
use eregion.Worker.Acquire.Handout.{IsFree}
use eregion.Worker.Release.Workers.{put_back, counted_out}
use eregion.Dispatcher.Queue.{Queue}
use eregion.Dispatcher.Serve.{
  Sent, replied, timed_out, broken_off, Event, in_flight_up, in_flight_down, Dispatcher, Reply,
  Served,
}

-- The in-flight gauge's change over some events, as two counts.
pub ups : List Event → ℕ
ups [] = 0
ups (in_flight_up ∷ es) = suc (ups es)
ups (_ ∷ es) = ups es

pub downs : List Event → ℕ
downs [] = 0
downs (in_flight_down ∷ es) = suc (downs es)
downs (_ ∷ es) = downs es

-- Events of a request that is in flight.
abbrev IsOpen : List Event → Type 0
IsOpen es = ups es ≡ suc (downs es)

-- What becomes of a request, and of the workers `before` and `after` it: none is touched, and the answer
-- is 404, 413 or 503; or one that was free (idle, and of its slot's generation) has answered, its status is
-- passed on, and the worker is idle again or on its way to its end, with one more request counted; or the
-- exchange with such a worker has failed, the worker is on its way to its end, and the answer is 504 after a
-- timeout and 502 otherwise. Every other worker is as it was.
pub data Fate (p : Pool) (sent : Sent) (reply : Reply) (after : List Worker) : Type 0 where
  unserved :
      after ≡ p.heap
      → ((reply.status ≡ 404) ⊎ ((reply.status ≡ 413) ⊎ (reply.status ≡ 503)))
      → Fate p sent reply after
  answered :
      (a status : ℕ) (meta : Meta)
      → sent ≡ replied status meta
      → reply.status ≡ status
      → IsFree p a
      → (after ≡ modify put_back p.heap a) ⊎ (after ≡ modify counted_out p.heap a)
      → Fate p sent reply after
  dropped :
      (a : ℕ)
      → ((sent ≡ timed_out) × (reply.status ≡ 504)) ⊎ ((sent ≡ broken_off) × (reply.status ≡ 502))
      → IsFree p a
      → after ≡ modify retire_worker p.heap a
      → Fate p sent reply after

pub record IsBalanced (q : Queue) (p : Pool) (sent : Sent) (r : Served) : Type 0 where
  pub same_queue : r.dispatcher.queue ≡ q
  pub gauge : ups r.events ≡ downs r.events
  pub fate : Fate p sent r.reply r.pool.heap
