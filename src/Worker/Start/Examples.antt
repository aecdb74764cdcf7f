-- ===== src/Worker/Start/Examples.antt =====
-- A worker started, and one whose socket does not come up.
use eregion.Prelude.{◌≡◌, refl, Bool, true, false, none, some, [], ◌∷◌}
use eregion.Prelude.Int.{ℤ, pos}
use eregion.Protocol.Messages.{Hello, Ready, validate_hello, validate_ready}
use eregion.Protocol.Frame.{Write, accepted, read_frame, write_frame, put_uint32}
use eregion.Protocol.Conn.{Codec, Conn, perform_handshake}
use eregion.Worker.Start.{Os, Starter, Started, start}
use eregion.Worker.Start.Clean.{processes, Outcome, start-Outcome}

abbrev hellos : Codec Hello
hellos = record { encode = λ h. some (1 ∷ 2 ∷ []); decode = λ b. none }

abbrev ready : Ready
ready = record {
  type' = "ready";
  protocol = "eregion";
  protocol_version = 1;
  worker_id = "worker-3";
  generation = 7;
  pid = pos 77;
}

abbrev readies : Codec Ready
readies = record { encode = λ h. none; decode = λ b. some ready }

abbrev one : Write
one = accepted 1

abbrev conn : Conn
conn = record {
  takes_deadline = true;
  max_frame_bytes = 100;
  writes = one ∷ one ∷ one ∷ one ∷ one ∷ one ∷ [];
  incoming = 0 ∷ 0 ∷ 0 ∷ 2 ∷ 5 ∷ 6 ∷ [];
}

abbrev os : Bool → Os
os appears = record {
  format = λ n. "3";
  format_int = λ n. "0";
  spawn = λ s. some (pos 70);
  socket_appears = λ p. appears;
  dial = λ p. some conn;
  path = λ s g. "/run/3-7.sock";
}

abbrev starter : Starter
starter = record {
  binary = "php";
  worker_script = "worker.php";
  working_directory = ".";
  environment = [];
  manifest = "";
  max_requests = pos 0;
  memory_limit_mb = pos 0;
}

abbrev pid_of : Started → ℤ
pid_of s = elim s.worker [ none ↦ pos 0 | some w ↦ w.pid ]

up : pid_of (start (os true) hellos readies starter 3 7 0) ≡ pos 77
unfolding start perform_handshake write_frame read_frame put_uint32 validate_hello validate_ready
up = refl

late : processes 0 (start (os false) hellos readies starter 3 7 0).steps ≡ 0
unfolding start processes
late = refl

start-Outcome_example :
    Outcome (os true) hellos readies 3 7 (start (os true) hellos readies starter 3 7 0)
start-Outcome_example = start-Outcome (os true) hellos readies starter 3 7 0
