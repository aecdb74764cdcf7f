-- ===== src/Server/Run.antt =====
-- internal/server/server.go: `Run` and `shutdown`, as the calls they make, and how they end.
use eregion.Prelude.{Bool, List, [], ◌∷◌, ◌++◌, if◌then◌else◌}

pub data Call : Type 0 where
  start_pools start_reconciler listen serve stop_reconciler : Call
  mark_shutting_down stop_http shut_pools clean_sockets : Call

pub data Ending : Type 0 where
  fine start_failed listen_failed serve_failed http_failed pools_failed : Ending

-- What `select` receives: the cancelled context, or the server's end with or without an error.
pub data Signal : Type 0 where
  cancelled server_closed server_failed : Signal

pub record Course : Type 0 where
  pub starts : Bool
  pub listens : Bool
  pub signal : Signal
  pub http_stops : Bool
  pub pools_stop : Bool

unfoldable pub shutdown : Course → List Call × Ending
shutdown c = (
  mark_shutting_down ∷ stop_http ∷ shut_pools ∷ clean_sockets ∷ [],
  if c.http_stops then (if c.pools_stop then fine else pools_failed) else http_failed,
)

abbrev pub after : List Call → List Call × Ending → List Call × Ending
after before (calls, ending) = (before ++ calls, ending)

abbrev pub on_signal : Course → Signal → List Call × Ending
on_signal c cancelled = after (stop_reconciler ∷ []) (shutdown c)
on_signal c server_closed = (stop_reconciler ∷ shut_pools ∷ [], fine)
on_signal c server_failed = (stop_reconciler ∷ shut_pools ∷ [], serve_failed)

-- The deferred stop of the reconciler runs again on return, without effect, and is left out.
unfoldable pub run : Course → List Call × Ending
unfolding shutdown
run c =
    let served =
      after (start_pools ∷ start_reconciler ∷ listen ∷ serve ∷ []) (on_signal c c.signal) in
    if c.starts
    then (if c.listens then served else (
      start_pools ∷ start_reconciler ∷ listen ∷ shut_pools ∷ stop_reconciler ∷ [],
      listen_failed,
    ))
    else (start_pools ∷ [], start_failed)
