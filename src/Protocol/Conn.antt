-- ===== src/Protocol/Conn.antt =====
-- internal/protocol/conn.go and handshake.go: one message out and one back. MessagePack is an
-- interface. A deadline that has passed shows as a failed call of `Write`, or as the end of what can be read.
use text.Mathlib.Text.{◌==◌ as str_eq}
use eregion.Prelude.{
  ℕ, ◌%◌, ◌^◌, Bool, List, [], Option, none, some, ltb, ◌==◌, true, false, if◌then◌else◌, length,
  String,
}
use eregion.Prelude.Results.{Result, ok, fail}
use eregion.Protocol.Frame.{
  FrameError, Write, Outcome, done, waiting, broken, refused, Wrote, read_frame, write_frame,
}
use eregion.Protocol.Messages.{
  Hello, Ready, RequestEnvelope, ResponseEnvelope, Invalid, validate_hello, validate_ready,
  validate_response,
}

-- `msgpack.Marshal` and `msgpack.Unmarshal` for one type of message.
pub record Codec (A : Type 0) : Type 0 where
  pub encode : A → Option (List ℕ)
  pub decode : List ℕ → Option A

-- A connection: whether `SetDeadline` succeeds, what its writer does, and the bytes that come in.
pub record Conn : Type 0 where
  pub takes_deadline : Bool
  pub max_frame_bytes : ℕ
  pub writes : List Write
  pub incoming : List ℕ

pub data ExchangeError : Type 0 where
  deadline_failed encode_failed payload_too_large write_failed decode_failed : ExchangeError
  read_failed : FrameError → ExchangeError
  invalid : Invalid → ExchangeError

-- What goes out, the connection after it, and the message that came back.
pub record Exchange (A : Type 0) : Type 0 where
  pub sent : List ℕ
  pub conn : Conn
  pub reply : Result ExchangeError A

module _ {A : Type 0} where
  abbrev pub accept : Option Invalid → A → Result ExchangeError A
  accept none m = ok m
  accept (some e) m = fail (invalid e)

  abbrev pub checked : (A → Option Invalid) → Option A → Result ExchangeError A
  checked validate none = fail decode_failed
  checked validate (some m) = accept (validate m) m

  -- Decode, then validate.
  abbrev pub understand :
      Codec A → (A → Option Invalid) → Result FrameError (List ℕ) → Result ExchangeError A
  understand c validate (fail e) = fail (read_failed e)
  understand c validate (ok raw) = checked validate (c.decode raw)

  abbrev pub await_reply : Codec A → (A → Option Invalid) → Conn → Wrote → Exchange A
  await_reply c validate conn w =
      let r = read_frame conn.max_frame_bytes conn.incoming in
      record {
        sent = w.sent;
        conn = record conn { writes = w.writes; incoming = r.1 };
        reply = understand c validate r.0;
      }

  -- Write the payload, then wait for the reply.
  unfoldable pub after_write : Outcome → Codec A → (A → Option Invalid) → Conn → Wrote → Exchange A
  after_write done c validate conn w = await_reply c validate conn w
  after_write waiting c validate conn w = record {
    sent = w.sent;
    conn = record conn { writes = w.writes };
    reply = fail write_failed;
  }
  after_write broken c validate conn w = record {
    sent = w.sent;
    conn = record conn { writes = w.writes };
    reply = fail write_failed;
  }
  after_write refused c validate conn w = record {
    sent = w.sent;
    conn = record conn { writes = w.writes };
    reply = fail write_failed;
  }

  abbrev pub give_up : Conn → ExchangeError → Exchange A
  give_up conn e = record { sent = []; conn = conn; reply = fail e }

  -- `SetDeadline`, and what follows if it succeeds.
  abbrev pub with_deadline : Bool → Conn → Exchange A → Exchange A
  with_deadline true conn x = x
  with_deadline false conn x = give_up conn deadline_failed

  unfoldable pub transact : Codec A → (A → Option Invalid) → Conn → List ℕ → Exchange A
  unfolding after_write
  transact c validate conn payload =
      let w = write_frame conn.writes payload in after_write w.outcome c validate conn w

-- `Conn.SendRequest`
abbrev pub complete : RequestEnvelope → RequestEnvelope
complete req = record req {
  type' = if str_eq req.type' "" then "request" else req.type';
  version = if req.version == 0 then 1 else req.version;
}

abbrev pub is_too_large : Conn → List ℕ → Bool
is_too_large conn payload = ltb conn.max_frame_bytes (length payload % 2 ^ 32)

unfoldable pub send_sized :
    Bool → Codec ResponseEnvelope → Conn → String → List ℕ → Exchange ResponseEnvelope
unfolding transact
send_sized true back conn id payload = give_up conn payload_too_large
send_sized false back conn id payload = transact back (λ r. validate_response r id) conn payload

unfoldable pub send_encoded :
    Codec ResponseEnvelope → Conn → String → Option (List ℕ) → Exchange ResponseEnvelope
unfolding send_sized
send_encoded back conn id none = give_up conn encode_failed
send_encoded back conn id (some payload) =
    send_sized (is_too_large conn payload) back conn id payload

unfoldable pub send_request :
    Codec RequestEnvelope
    → Codec ResponseEnvelope
    → Conn
    → RequestEnvelope
    → Exchange ResponseEnvelope
unfolding send_encoded
send_request out back conn req =
    with_deadline conn.takes_deadline conn
      (send_encoded back conn req.id (out.encode (complete req)))

unfoldable pub greet : Codec Ready → Conn → Hello → Option (List ℕ) → Exchange Ready
unfolding transact
greet back conn hello none = give_up conn encode_failed
greet back conn hello (some payload) =
    transact back (λ r. validate_ready r hello.worker_id hello.generation) conn payload

abbrev pub greet_if : Option Invalid → Exchange Ready → Conn → Exchange Ready
greet_if none greeting conn = greeting
greet_if (some e) greeting conn = give_up conn (invalid e)

unfoldable pub perform_handshake : Codec Hello → Codec Ready → Conn → Hello → Exchange Ready
unfolding greet
perform_handshake out back conn hello =
    greet_if (validate_hello hello)
      (with_deadline conn.takes_deadline conn (greet back conn hello (out.encode hello))) conn
