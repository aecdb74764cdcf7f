-- ===== src/Worker/Types.antt =====
-- internal/worker/state.go, and the data of process.go and pool.go: workers, slots and the pool.
-- A `*Worker` is an address into `heap`: the channel of idle workers, the slots and the requests
-- hold such addresses, so that one worker is shared as it is in the source.
use eregion.Prelude.{
  ℕ, zero, suc, Bool, true, false, ◌||◌, Option, none, some, List, [], ◌∷◌, ◌++◌, String, ltb, ◌==◌,
  if◌then◌else◌, length, get_elem?, set, modify,
}

-- state.go
pub data State : Type 0 where
  starting idle busy draining dead failed stopped : State

pub State-discrete : Discrete State
State-discrete = hlevel

pub data Mode : Type 0 where
  http consumer : Mode

abbrev pub is_http : Mode → Bool
is_http http = true
is_http consumer = false

abbrev pub is_idle : State → Bool
is_idle idle = true
is_idle _ = false

abbrev pub is_busy : State → Bool
is_busy busy = true
is_busy _ = false

-- The states that `SetDesired` and `Shutdown` leave alone.
abbrev pub is_ending : State → Bool
is_ending draining = true
is_ending dead = true
is_ending stopped = true
is_ending _ = false

-- `closed` says that the connection was closed, `signalled` that SIGTERM was sent.
pub record Worker : Type 0 where
  pub slot : ℕ
  pub generation : ℕ
  pub state : State
  pub requests_handled : ℕ
  pub restart_count : ℕ
  pub closed : Bool
  pub signalled : Bool

-- `failures` is the counter of the slot's `Backoff`; `restarts` holds times in nanoseconds.
pub record Slot : Type 0 where
  pub index : ℕ
  pub generation : ℕ
  pub worker : Option ℕ
  pub failures : ℕ
  pub restarts : List ℕ
  pub restart_count : ℕ
  pub planned_exit : Bool
  pub retired : Bool

-- The settings that the pool reads. Validation has made the signed ones non-negative.
pub record Config : Type 0 where
  pub max_requests : ℕ
  pub memory_limit_mb : ℕ
  pub restart_limit : ℕ
  pub restart_window : ℕ
  pub queue_capacity : ℕ

pub data Direction : Type 0 where
  up down : Direction

-- `recycled`, `restarted` and `scaled` are the calls made to the metrics hooks.
pub record Pool : Type 0 where
  pub mode : Mode
  pub cfg : Config
  pub slots : List Slot
  pub heap : List Worker
  pub channel : List ℕ
  pub channel_cap : ℕ
  pub desired : ℕ
  pub min_ready : ℕ
  pub min_w : ℕ
  pub max_w : ℕ
  pub stopping : Bool
  pub recycled : List String
  pub restarted : ℕ
  pub scaled : List Direction

-- NewWorkloadPool: the bounds in the order in which the code mends them.
abbrev pub clamp_max : ℕ → ℕ → ℕ → ℕ
clamp_max min_w max_w desired =
    let m = (if ltb max_w 1 then desired else max_w) in if ltb m min_w then min_w else m

abbrev pub clamp_desired : ℕ → ℕ → ℕ → ℕ
clamp_desired min_w max_w desired =
    let d = (if ltb desired min_w then min_w else desired) in if ltb max_w d then max_w else d

unfoldable pub new_workload_pool : Mode → Config → ℕ → ℕ → ℕ → ℕ → Pool
new_workload_pool mode cfg desired min_w max_w min_ready =
    let top = clamp_max min_w max_w desired in
    record {
      mode = mode;
      cfg = cfg;
      slots = [];
      heap = [];
      channel = [];
      channel_cap = if ltb top 1 then 1 else top;
      desired = clamp_desired min_w top desired;
      min_ready = min_ready;
      min_w = min_w;
      max_w = top;
      stopping = false;
      recycled = [];
      restarted = 0;
      scaled = [];
    }

-- `p.slots[slot - 1]` behind the check `slot < 1 || slot > len(p.slots)`.
abbrev pub slot_at : List Slot → ℕ → Option Slot
slot_at slots zero = none
slot_at slots (suc k) = get_elem? slots k

abbrev pub put_slot : List Slot → ℕ → Slot → List Slot
put_slot slots zero s = slots
put_slot slots (suc k) s = set slots k s

abbrev pub worker_at : Pool → ℕ → Option Worker
worker_at p a = get_elem? p.heap a

abbrev pub with_state : State → Worker → Worker
with_state st w = record w { state = st }

-- Worker.setState
abbrev pub set_state : Pool → ℕ → State → Pool
set_state p a st = record p { heap = modify (with_state st) p.heap a }

-- The slot's current worker has the generation of `w`.
abbrev pub is_current : Pool → Slot → Worker → Bool
is_current p s w = elim s.worker [
  | none ↦ false
  | some c ↦ elim (worker_at p c) [ none ↦ false | some v ↦ v.generation == w.generation ]
]

-- `s.retired || s.index > p.desired`
abbrev pub is_retired : Pool → Slot → Bool
is_retired p s = s.retired || ltb p.desired s.index

-- A send that gives up when the channel is full.
unfoldable pub send_idle : Pool → ℕ → Pool
send_idle p a =
    if ltb (length p.channel) p.channel_cap then record p { channel = p.channel ++ (a ∷ []) } else p
