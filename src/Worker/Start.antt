-- ===== src/Worker/Start.antt =====
-- internal/worker/process.go: how a worker's process is specified and started. What the operating system
-- answers is in `Os`; the steps that the code takes are listed in their order.
pub mod Clean
mod Examples
use Prim.Native.String
use eregion.Prelude.{
  ℕ, Bool, true, false, Option, none, some, List, [], ◌∷◌, ◌++◌, String, if◌then◌else◌,
}
use eregion.Prelude.Int.{ℤ, pos, ltb_ℤ}
use eregion.Prelude.Results.{Result, ok, fail}
use eregion.Prelude.Texts.{is_empty}
use eregion.Protocol.Messages.{Hello, Ready}
use eregion.Protocol.Conn.{Codec, Conn, ExchangeError, perform_handshake}
use eregion.Worker.Types.{State, idle}
use eregion.Worker.Environment.{inject_consumer_metadata}

pub record ProcessSpecification : Type 0 where
  pub command : List String
  pub binary : String
  pub worker_script : String
  pub working_directory : String
  pub environment : List (String × String)
  pub manifest : String
  pub socket_path : String
  pub workload_name : String
  pub worker_id : String
  pub generation : ℕ
  pub max_requests : ℤ
  pub memory_limit_mb : ℤ

-- `strconv.FormatUint`, `strconv.Itoa`, the process that a specification starts, whether its socket comes up
-- in time, the connection to it, and `socket.Manager.Path`.
pub record Os : Type 0 where
  pub format : ℕ → String
  pub format_int : ℤ → String
  pub spawn : ProcessSpecification → Option ℤ
  pub socket_appears : String → Bool
  pub dial : String → Option Conn
  pub path : ℕ → ℕ → String

-- The fields of `Starter` and of its configuration.
pub record Starter : Type 0 where
  pub binary : String
  pub worker_script : String
  pub working_directory : String
  pub environment : List (String × String)
  pub manifest : String
  pub max_requests : ℤ
  pub memory_limit_mb : ℤ

pub record ConsumerStarter : Type 0 where
  pub workload : String
  pub command : List String
  pub working_directory : String
  pub environment : List (String × String)

pub record StartedWorker : Type 0 where
  pub id : String
  pub slot : ℕ
  pub generation : ℕ
  pub pid : ℤ
  pub state : State
  pub socket_path : String
  pub restart_count : ℕ

pub data Step : Type 0 where
  removed permitted : String → Step
  spawned : ProcessSpecification → Step
  connected closed terminated : Step

pub record Started : Type 0 where
  pub worker : Option StartedWorker
  pub steps : List Step

abbrev pub flag : String → String → String
flag name v = String.◌++◌ name v

-- The arguments of `exec.Command` and the environment in `Spawn`.
unfoldable pub argv : Os → ProcessSpecification → List String
argv os spec = elim spec.command [
  | c ∷ cs ↦ c ∷ cs
  | [] ↦
      spec.binary
      ∷ spec.worker_script
      ∷ flag "--socket=" spec.socket_path
      ∷ flag "--worker-id=" spec.worker_id
      ∷ flag "--generation=" (os.format spec.generation)
      ∷ flag "--max-requests=" (os.format_int spec.max_requests)
      ∷ flag "--memory-limit-mb=" (os.format_int spec.memory_limit_mb)
      ∷ (if is_empty spec.manifest then [] else flag "--manifest=" spec.manifest ∷ [])
]

unfoldable pub overrides : Os → ProcessSpecification → List (String × String)
unfolding inject_consumer_metadata
overrides os spec = elim spec.command [
  | [] ↦ spec.environment
  | _ ∷ _ ↦
      inject_consumer_metadata os.format spec.environment spec.workload_name spec.worker_id
        spec.generation
]

abbrev pub greeting : String → ℕ → Hello
greeting id generation = record {
  type' = "hello";
  protocol = "eregion";
  protocol_version = 1;
  worker_id = id;
  generation = generation;
}

abbrev pub failed_after : List Step → Started
failed_after steps = record { worker = none; steps = steps }

abbrev pub is_above_zero : ℤ → Bool
is_above_zero n = ltb_ℤ (pos 0) n

module _ (os : Os) (out : Codec Hello) (back : Codec Ready) where
  -- After the handshake.
  abbrev pub greeted : StartedWorker → List Step → Result ExchangeError Ready → Started
  greeted w before (fail e) = failed_after (before ++ (closed ∷ terminated ∷ []))
  greeted w before (ok ready) = record {
    worker =
        some
          (record w { pid = if is_above_zero ready.pid then ready.pid else w.pid; state = idle });
    steps = before;
  }

  abbrev pub dialled : StartedWorker → List Step → Option Conn → Started
  dialled w before none = failed_after (before ++ (terminated ∷ []))
  dialled w before (some conn) =
      greeted w (before ++ (connected ∷ []))
        (perform_handshake out back conn (greeting w.id w.generation)).reply

  abbrev pub ran : StartedWorker → List Step → Option ℤ → Started
  ran w before none = failed_after before
  ran w before (some pid) =
      let next =
        dialled (record w { pid = pid }) (before ++ (permitted w.socket_path ∷ []))
          (os.dial w.socket_path) in
      if os.socket_appears w.socket_path then next else failed_after (before ++ (terminated ∷ []))

  abbrev pub worker_id : ℕ → String
  worker_id slot = flag "worker-" (os.format slot)

  abbrev pub specification : Starter → ℕ → ℕ → ProcessSpecification
  specification s slot generation = record {
    command = [];
    binary = s.binary;
    worker_script = s.worker_script;
    working_directory = s.working_directory;
    environment = s.environment;
    manifest = s.manifest;
    socket_path = os.path slot generation;
    workload_name = "";
    worker_id = worker_id slot;
    generation = generation;
    max_requests = s.max_requests;
    memory_limit_mb = s.memory_limit_mb;
  }

  abbrev pub new_worker : String → String → ℕ → ℕ → ℕ → StartedWorker
  new_worker id path slot generation restart_count = record {
    id = id;
    slot = slot;
    generation = generation;
    pid = pos 0;
    state = State.starting;
    socket_path = path;
    restart_count = restart_count;
  }

  -- The steps up to a process that runs.
  abbrev pub launched : Option ℤ → List Step → ProcessSpecification → List Step
  launched none before spec = before
  launched (some _) before spec = before ++ (spawned spec ∷ [])

  -- `Starter.Start`
  unfoldable pub start : Starter → ℕ → ℕ → ℕ → Started
  start s slot generation restart_count =
      let path = os.path slot generation in
      let spec = specification s slot generation in
      ran (new_worker (worker_id slot) path slot generation restart_count)
        (launched (os.spawn spec) (removed path ∷ []) spec) (os.spawn spec)

  abbrev pub running : StartedWorker → ProcessSpecification → Option ℤ → Started
  running w spec none = failed_after []
  running w spec (some pid) = record {
    worker = some (record w { pid = pid; state = idle });
    steps = spawned spec ∷ [];
  }

  -- `ConsumerStarter.Start`
  unfoldable pub consumer_start : ConsumerStarter → ℕ → ℕ → ℕ → Started
  unfolding inject_consumer_metadata
  consumer_start s slot generation restart_count =
      let id = flag "consumer-" (os.format slot) in
      let spec : ProcessSpecification = record {
        command = s.command;
        binary = "";
        worker_script = "";
        working_directory = if is_empty s.working_directory then "." else s.working_directory;
        environment = inject_consumer_metadata os.format s.environment s.workload id generation;
        manifest = "";
        socket_path = "";
        workload_name = s.workload;
        worker_id = id;
        generation = generation;
        max_requests = pos 0;
        memory_limit_mb = pos 0;
      } in
      elim s.command [
        | [] ↦ failed_after []
        | _ ∷ _ ↦ running (new_worker id "" slot generation restart_count) spec (os.spawn spec)
      ]
