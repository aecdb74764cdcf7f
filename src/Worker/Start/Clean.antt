-- ===== src/Worker/Start/Clean.antt =====
-- A start that fails leaves nothing running, and one that succeeds a worker that is greeted.
use mathlib.Core.Path.{subst}
use eregion.Prelude.{
  ℕ, suc, ◌<◌, ◌≡◌, refl, sym, true, Option, none, some, List, [], ◌∷◌, String, inl, inr,
  Bool-cases, Option-cases, arith,
}
use eregion.Prelude.Int.{ℤ, pos_part}
use eregion.Prelude.Results.{Result, ok, Result-cases}
use eregion.Protocol.Messages.{Hello, Ready}
use eregion.Protocol.Conn.{Codec, Conn, ExchangeError, perform_handshake}
use eregion.Protocol.Exchange.{IsMatch, perform_handshake-IsMatch}
use eregion.Worker.Types.{idle}
use eregion.Worker.Start.{
  ProcessSpecification, Os, Starter, StartedWorker, Step, removed, permitted, spawned, connected,
  closed, terminated, Started, greeting, is_above_zero, greeted, dialled, ran, launched,
  specification, new_worker, worker_id, start,
}

-- Processes that run and connections that are open after some steps, begun with so many.
unfoldable pub processes : ℕ → List Step → ℕ
processes n [] = n
processes n (spawned _ ∷ steps) = processes (suc n) steps
processes n (terminated ∷ steps) = processes 0 steps
processes n (_ ∷ steps) = processes n steps

unfoldable pub connections : ℕ → List Step → ℕ
connections n [] = n
connections n (connected ∷ steps) = connections (suc n) steps
connections n (closed ∷ steps) = connections 0 steps
connections n (_ ∷ steps) = connections n steps

module _ (os : Os) (out : Codec Hello) (back : Codec Ready) where
  abbrev pub handshake : Conn → String → ℕ → Result ExchangeError Ready
  handshake conn id generation = (perform_handshake out back conn (greeting id generation)).reply

  -- A worker that is up: its process runs and has greeted as this worker and generation.
  pub record IsUp (slot generation : ℕ) (s : Started) (w : StartedWorker) : Type 0 where
    pub one_process : processes 0 s.steps ≡ 1
    pub one_connection : connections 0 s.steps ≡ 1
    pub state : w.state ≡ idle
    pub numbers : (w.slot ≡ slot) × (w.generation ≡ generation)
    pub greets :
        (conn : Conn) × (ready : Ready) × (os.dial (os.path slot generation) ≡ some conn)
        × (handshake conn w.id generation ≡ ok ready)
        × IsMatch ready (greeting w.id generation)
        × (w.pid ≡ ready.pid)

  pub data Outcome (slot generation : ℕ) (s : Started) : Type 0 where
    up :
        (w : StartedWorker)
        → s.worker ≡ some w
        → IsUp slot generation s w
        → Outcome slot generation s
    failed :
        s.worker ≡ none
        → processes 0 s.steps ≡ 0
        → connections 0 s.steps ≡ 0
        → Outcome slot generation s

  positive_pid : (n : ℤ) → 0 < pos_part n → is_above_zero n ≡ true
  positive_pid n h = ground (arith, h)

  abbrev steps_to : String → ProcessSpecification → List Step
  steps_to path spec = removed path ∷ spawned spec ∷ permitted path ∷ connected ∷ []

  abbrev path_of : StartedWorker → String
  path_of w = os.path w.slot w.generation

  greeted-Outcome :
      (spec : ProcessSpecification) (w : StartedWorker) (conn : Conn)
      → os.dial (path_of w) ≡ some conn
      → Outcome w.slot w.generation
          (greeted os out back w (steps_to (path_of w) spec) (handshake conn w.id w.generation))
  unfolding processes connections
  greeted-Outcome spec w conn d = elim (Result-cases (handshake conn w.id w.generation)) [
    | inr (x, h) ↦ rw h (failed refl refl refl)
    | inl (ready, h) ↦
        let m = (perform_handshake-IsMatch out back conn (greeting w.id w.generation) ready h).1 in
        rw (h, positive_pid ready.pid m.pid)
          (up (record w { pid = ready.pid; state = idle }) refl
            (record {
              one_process = refl;
              one_connection = refl;
              state = refl;
              numbers = (refl, refl);
              greets = (conn, ready, d, h, m, refl);
            }))
  ]

  dialled-Outcome :
      (spec : ProcessSpecification) (w : StartedWorker)
      → Outcome w.slot w.generation (
          dialled os out back w
            (removed (path_of w) ∷ spawned spec ∷ permitted (path_of w) ∷ [])
            (os.dial (path_of w)))
  unfolding processes connections
  dialled-Outcome spec w = elim (Option-cases (os.dial (path_of w))) [
    | inl e ↦ rw e (failed refl refl refl)
    | inr (conn, e) ↦
        subst
          (λ o. Outcome w.slot w.generation (
            dialled os out back w (removed (path_of w) ∷ spawned spec ∷ permitted (path_of w) ∷ [])
              o))
          (sym e) (greeted-Outcome spec w conn e)
  ]

  ran-Outcome :
      (spec : ProcessSpecification) (w : StartedWorker) (p : Option ℤ)
      → w.socket_path ≡ path_of w
      → Outcome w.slot w.generation
          (ran os out back w (launched os out back p (removed (path_of w) ∷ []) spec) p)
  unfolding processes connections
  ran-Outcome spec w none e = failed refl refl refl
  ran-Outcome spec w (some pid) e = elim (Bool-cases (os.socket_appears w.socket_path)) [
    | inr f ↦ rw f (failed refl refl refl)
    | inl f ↦ rw (f, e) (dialled-Outcome spec (record w { pid = pid; socket_path = path_of w }))
  ]

  -- A start of a slot's generation ends in one of two ways. Either there is a worker: it is idle, has the slot
  -- and the generation, its process runs, its connection is open, and the handshake over it, with the worker's id and the generation in
  -- its greeting, succeeded with an answer that fits the greeting, whose process id the worker has. Or there is none, and no process is left
  -- running that was not told to end, and no connection open.
  pub start-Outcome :
      (s : Starter) (slot generation restart_count : ℕ)
      → Outcome slot generation (start os out back s slot generation restart_count)
  unfolding start processes connections
  start-Outcome s slot generation restart_count =
      let spec = specification os out back s slot generation in
      ran-Outcome spec
        (new_worker os out back (worker_id os out back slot) (os.path slot generation) slot
          generation restart_count)
        (os.spawn spec) refl
