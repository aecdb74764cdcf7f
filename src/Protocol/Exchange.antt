-- ===== src/Protocol/Exchange.antt =====
-- What a caller may rely on when a handshake or a request succeeds, and when it does.
use text.Mathlib.Text.{◌==◌ as str_eq}
use mathlib.Core.Path.{subst}
use eregion.Prelude.{
  ℕ, ◌≤◌, ◌<◌, ◌≡◌, refl, sym, ap, Bool, true, false, not, List, Option, none, some, String, inl,
  inr, Bool-cases, arith,
}
use eregion.Prelude.Int.{pos_part}
use eregion.Prelude.Maps.{str_eq→eq, str_eq_self}
use eregion.Prelude.Results.{
  Result, ok, fail, ok_eq, ok_ne_fail, first_error-IsPassed, IsPassed-first_error,
}
use eregion.Protocol.Frame.{
  FrameError, Outcome, done, waiting, broken, refused, Wrote, read_frame, write_frame,
}
use eregion.Protocol.Messages.{
  Hello, Ready, RequestEnvelope, ResponseEnvelope, Invalid, validate_hello, validate_ready,
  validate_response, differ, differ_number, response_checks, ready_checks,
}
use eregion.Protocol.Conn.{
  Codec, Conn, Exchange, accept, understand, after_write, transact, send_request, perform_handshake,
  with_deadline, complete, checked, is_too_large, send_sized, send_encoded, greet, greet_if,
}

same : {s t : String} → differ s t ≡ false → s ≡ t
same {s} {t} h = elim (Bool-cases (str_eq s t)) [ inl e ↦ str_eq→eq e | inr e ↦ absurd (cc (h, e)) ]

same_number : {a b : ℕ} → differ_number a b ≡ false → a ≡ b
same_number h = ground arith

not_differ : {s t : String} → s ≡ t → differ s t ≡ false
not_differ {s} {t} e = subst (λ x. differ s x ≡ false) e (ap not (str_eq_self s))

-- A response that answers the request `id`.
pub record IsAnswer (r : ResponseEnvelope) (wanted : String) : Type 0 where
  pub type' : r.type' ≡ "response"
  pub version : r.version ≡ 1
  pub id : r.id ≡ wanted
  pub status : (100 ≤ r.status) × (r.status ≤ 599)

-- A worker's greeting that fits the one sent to it.
pub record IsMatch (r : Ready) (hello : Hello) : Type 0 where
  pub type' : r.type' ≡ "ready"
  pub protocol : r.protocol ≡ "eregion"
  pub version : r.protocol_version ≡ 1
  pub worker_id : r.worker_id ≡ hello.worker_id
  pub generation : r.generation ≡ hello.generation
  pub pid : 0 < pos_part r.pid

validate_response-none :
    (r : ResponseEnvelope) (id : String) → validate_response r id ≡ none → IsAnswer r id
unfolding validate_response
validate_response-none r id h =
    let (t, (v, (i, (s, _)))) = first_error-IsPassed (response_checks r id) h in
    record { type' = same t; version = same_number v; id = same i; status = ground (arith, s) }

validate_ready-none :
    (r : Ready) (hello : Hello)
    → validate_ready r hello.worker_id hello.generation ≡ none
    → IsMatch r hello
unfolding validate_ready
validate_ready-none r hello h =
    let (t, (p, (v, (w, (g, (pid, _)))))) =
      first_error-IsPassed (ready_checks r hello.worker_id hello.generation) h in
    record {
      type' = same t;
      protocol = same p;
      version = same_number v;
      worker_id = same w;
      generation = same_number g;
      pid = ground (arith, pid);
    }

pub IsAnswer-validate_response :
    (r : ResponseEnvelope) (id : String) → IsAnswer r id → validate_response r id ≡ none
unfolding validate_response
IsAnswer-validate_response r id a = IsPassed-first_error (response_checks r id) (
  not_differ a.type',
  (ground (arith, a.version), (not_differ a.id, (ground (arith, a.status), tt))),
)

module _ {A : Type 0} (c : Codec A) (validate : A → Option Invalid) where
  accept-valid : (e : Option Invalid) (n m : A) → accept e n ≡ ok m → (e ≡ none) × (n ≡ m)
  accept-valid none n m h = (refl, ok_eq h)
  accept-valid (some e) n m h = absurd (ok_ne_fail (sym h))

  checked-valid : (o : Option A) (m : A) → checked validate o ≡ ok m → validate m ≡ none
  checked-valid none m h = absurd (ok_ne_fail (sym h))
  checked-valid (some n) m h =
      let (v, same_message) = accept-valid (validate n) n m h in
      subst (λ x. validate x ≡ none) same_message v

  understand-valid :
      (r : Result FrameError (List ℕ)) (m : A) → understand c validate r ≡ ok m → validate m ≡ none
  understand-valid (fail e) m h = absurd (ok_ne_fail (sym h))
  understand-valid (ok raw) m h = checked-valid (c.decode raw) m h

  after_write-valid :
      (o : Outcome) (conn : Conn) (w : Wrote) (m : A)
      → (after_write o c validate conn w).reply ≡ ok m
      → validate m ≡ none
  unfolding after_write
  after_write-valid done conn w m h =
      understand-valid (read_frame conn.max_frame_bytes conn.incoming).0 m h
  after_write-valid waiting conn w m h = absurd (ok_ne_fail (sym h))
  after_write-valid broken conn w m h = absurd (ok_ne_fail (sym h))
  after_write-valid refused conn w m h = absurd (ok_ne_fail (sym h))

  -- A transaction that succeeds yields a message that passes the checks.
  transact-valid :
      (conn : Conn) (payload : List ℕ) (m : A)
      → (transact c validate conn payload).reply ≡ ok m
      → validate m ≡ none
  unfolding transact
  transact-valid conn payload m h =
      let w = write_frame conn.writes payload in after_write-valid w.outcome conn w m h

send_sized-valid :
    (b : Bool) (back : Codec ResponseEnvelope) (conn : Conn) (id : String) (p : List ℕ)
    (r : ResponseEnvelope)
    → (send_sized b back conn id p).reply ≡ ok r
    → validate_response r id ≡ none
unfolding send_sized
send_sized-valid true back conn id p r h = absurd (ok_ne_fail (sym h))
send_sized-valid false back conn id p r h =
    transact-valid back (λ x. validate_response x id) conn p r h

send_encoded-valid :
    (back : Codec ResponseEnvelope) (conn : Conn) (id : String) (o : Option (List ℕ))
    (r : ResponseEnvelope)
    → (send_encoded back conn id o).reply ≡ ok r
    → validate_response r id ≡ none
unfolding send_encoded
send_encoded-valid back conn id none r h = absurd (ok_ne_fail (sym h))
send_encoded-valid back conn id (some p) r h =
    send_sized-valid (is_too_large conn p) back conn id p r h

with_deadline-ok :
    {A : Type 0} (b : Bool) (conn : Conn) (x : Exchange A) {r : A}
    → (with_deadline b conn x).reply ≡ ok r
    → x.reply ≡ ok r
with_deadline-ok true conn x h = h
with_deadline-ok false conn x h = absurd (ok_ne_fail (sym h))

-- A request that succeeds brings the answer to it: a response with the request's identifier, in
-- version 1, whose status is from 100 to 599.
pub send_request-IsAnswer :
    (out : Codec RequestEnvelope) (back : Codec ResponseEnvelope) (conn : Conn)
    (req : RequestEnvelope) (r : ResponseEnvelope)
    → (send_request out back conn req).reply ≡ ok r
    → IsAnswer r req.id
unfolding send_request
send_request-IsAnswer out back conn req r h = validate_response-none r req.id (
    send_encoded-valid back conn req.id (out.encode (complete req)) r (
      with_deadline-ok conn.takes_deadline conn
        (send_encoded back conn req.id (out.encode (complete req))) h))

greet-valid :
    (back : Codec Ready) (conn : Conn) (hello : Hello) (o : Option (List ℕ)) (r : Ready)
    → (greet back conn hello o).reply ≡ ok r
    → validate_ready r hello.worker_id hello.generation ≡ none
unfolding greet
greet-valid back conn hello none r h = absurd (ok_ne_fail (sym h))
greet-valid back conn hello (some p) r h =
    transact-valid back (λ x. validate_ready x hello.worker_id hello.generation) conn p r h

greet_if-ok :
    (e : Option Invalid) (g : Exchange Ready) (conn : Conn) (r : Ready)
    → (greet_if e g conn).reply ≡ ok r
    → (e ≡ none) × (g.reply ≡ ok r)
greet_if-ok none g conn r h = (refl, h)
greet_if-ok (some e) g conn r h = absurd (ok_ne_fail (sym h))

-- A handshake that succeeds was begun with a valid greeting, and the worker's greeting fits it: it is
-- of the same protocol and version, names the same worker and generation, and has a process id.
pub perform_handshake-IsMatch :
    (out : Codec Hello) (back : Codec Ready) (conn : Conn) (hello : Hello) (r : Ready)
    → (perform_handshake out back conn hello).reply ≡ ok r
    → (validate_hello hello ≡ none) × IsMatch r hello
unfolding perform_handshake
perform_handshake-IsMatch out back conn hello r h =
    let greeting = greet back conn hello (out.encode hello) in
    let (v, k) =
      greet_if-ok (validate_hello hello) (with_deadline conn.takes_deadline conn greeting) conn r
        h in
    let g = with_deadline-ok conn.takes_deadline conn greeting k in
    (v, validate_ready-none r hello (greet-valid back conn hello (out.encode hello) r g))
