-- ===== src/Protocol/Examples.antt =====
-- Frames and a request at concrete inputs.
use eregion.Prelude.{true, ℕ, ◌≤◌, ◌<◌, ◌≡◌, refl, List, [], ◌∷◌, ◌++◌, none, some, length, arith}
use eregion.Prelude.Int.{pos}
use eregion.Prelude.Results.{ok}
use eregion.Protocol.Frame.{Write, accepted, done, put_uint32, read_frame, write_frame}
use eregion.Protocol.Framing.{framed, read_frame-write_frame}
use eregion.Protocol.Accepted.{read_frame-framed}
use eregion.Protocol.Messages.{
  Hello, Ready, RequestEnvelope, ResponseEnvelope, validate_hello, validate_ready,
  validate_response,
}
use eregion.Protocol.Conn.{Codec, Conn, send_request, perform_handshake}
use eregion.Protocol.Exchange.{IsAnswer, IsMatch, send_request-IsAnswer, perform_handshake-IsMatch}
use eregion.Protocol.Conversation.{send_request-answered}

abbrev ones : List Write
ones =
    accepted 1
    ∷ accepted 2
    ∷ accepted 1
    ∷ accepted 9
    ∷ accepted 1
    ∷ accepted 1
    ∷ accepted 1
    ∷ accepted 1
    ∷ []

abbrev two : List ℕ
two = 7 ∷ 8 ∷ []

read_frame-write_frame_example :
    ((write_frame ones two).outcome ≡ done)
    × (read_frame 100 ((write_frame ones two).sent ++ (5 ∷ [])) ≡ (ok two, 5 ∷ []))
read_frame-write_frame_example =
    read_frame-write_frame 100 ones two (5 ∷ []) (omega arith) (omega arith) (omega arith)
      (ground arith) (omega arith)

abbrev input : List ℕ
input = 0 ∷ 0 ∷ 0 ∷ 2 ∷ 7 ∷ 8 ∷ 5 ∷ []

read_frame-framed_example : (0 < length two) × (length two ≤ 100) × (input ≡ framed two ++ (5 ∷ []))
unfolding read_frame
read_frame-framed_example = read_frame-framed 100 input two (5 ∷ []) (ground arith) refl

-- Messages that are their bodies.
abbrev answer : List ℕ → ResponseEnvelope
answer b = record { type' = "response"; version = 1; id = "req-1"; status = 200; body = b }

abbrev request : RequestEnvelope
request = record { type' = ""; version = 0; id = "req-1"; body = two }

abbrev requests : Codec RequestEnvelope
requests = record { encode = λ r. some r.body; decode = λ b. some (record request { body = b }) }

abbrev answers : Codec ResponseEnvelope
answers = record { encode = λ r. some r.body; decode = λ b. some (answer b) }

abbrev conn : Conn
conn = record { takes_deadline = true; max_frame_bytes = 100; writes = ones; incoming = input }

send_request-answered_example :
    let x = send_request requests answers conn request in
    (x.reply ≡ ok (answer two)) × (x.sent ≡ framed two) × (x.conn.incoming ≡ 5 ∷ [])
unfolding put_uint32
send_request-answered_example =
    send_request-answered requests answers conn request (answer two) two two (5 ∷ []) (omega arith)
      refl
      (record {
        timed = refl;
        something = omega arith;
        small = omega arith;
        progress = ground arith;
        enough = omega arith;
      })
      (record { something = omega arith; small = omega arith; bytes = refl }) refl
      (record { type' = refl; version = refl; id = refl; status = (omega arith, omega arith) })

answered : (send_request requests answers conn request).reply ≡ ok (answer two)
unfolding send_request write_frame read_frame put_uint32 validate_response
answered = refl

send_request-IsAnswer_example : IsAnswer (answer two) "req-1"
send_request-IsAnswer_example =
    send_request-IsAnswer requests answers conn request (answer two) answered

abbrev hello : Hello
hello = record {
  type' = "hello";
  protocol = "eregion";
  protocol_version = 1;
  worker_id = "w1";
  generation = 3;
}

abbrev ready : Ready
ready = record {
  type' = "ready";
  protocol = "eregion";
  protocol_version = 1;
  worker_id = "w1";
  generation = 3;
  pid = pos 77;
}

abbrev hellos : Codec Hello
hellos = record { encode = λ h. some two; decode = λ b. some hello }

abbrev readies : Codec Ready
readies = record { encode = λ h. some two; decode = λ b. some ready }

greeted : (perform_handshake hellos readies conn hello).reply ≡ ok ready
unfolding perform_handshake write_frame read_frame put_uint32 validate_hello validate_ready
greeted = refl

perform_handshake-IsMatch_example : (validate_hello hello ≡ none) × IsMatch ready hello
perform_handshake-IsMatch_example =
    perform_handshake-IsMatch hellos readies conn hello ready greeted
