-- ===== src/Protocol/Conversation.antt =====
-- A request to a worker that answers it succeeds.
use mathlib.Core.Path.{subst}
use eregion.Prelude.{
  true, ℕ, ◌+◌, ◌%◌, ◌^◌, ◌≤◌, ◌<◌, ◌≡◌, sym, ap, ◌∙◌, false, List, ◌++◌, Option, none, some,
  length, All, arith, le→ltb,
}
use eregion.Prelude.Results.{ok}
use eregion.Protocol.Frame.{read_frame, write_frame}
use eregion.Protocol.Framing.{
  IsProgress, framed, write_frame-done, write_frame-sent, read_frame-append,
}
use eregion.Protocol.Messages.{RequestEnvelope, ResponseEnvelope, Invalid, validate_response}
use eregion.Protocol.Conn.{
  Codec, Conn, accept, understand, after_write, transact, send_request, complete, checked,
  is_too_large, send_sized, send_encoded, with_deadline,
}
use eregion.Protocol.Exchange.{IsAnswer, IsAnswer-validate_response}

-- A payload that the connection carries: with a deadline that can be set, not empty, within the limit,
-- and written.
pub record IsCarried (conn : Conn) (p : List ℕ) : Type 0 where
  pub timed : conn.takes_deadline ≡ true
  pub something : 0 < length p
  pub small : length p ≤ conn.max_frame_bytes
  pub progress : All IsProgress conn.writes
  pub enough : length p + 4 ≤ length conn.writes

-- The peer's next frame holds `q`, and `more` follows it.
pub record IsNext (conn : Conn) (q more : List ℕ) : Type 0 where
  pub something : 0 < length q
  pub small : length q ≤ conn.max_frame_bytes
  pub bytes : conn.incoming ≡ framed q ++ more

module _ {A : Type 0} (c : Codec A) (validate : A → Option Invalid) where
  read_next :
      (conn : Conn) (q more : List ℕ)
      → conn.max_frame_bytes < 2 ^ 32
      → IsNext conn q more
      → read_frame conn.max_frame_bytes conn.incoming ≡ (ok q, more)
  read_next conn q more m n =
      ap (read_frame conn.max_frame_bytes) n.bytes
      ∙ read_frame-append conn.max_frame_bytes q more n.something n.small m

  understood :
      (q : List ℕ) (r : A)
      → c.decode q ≡ some r
      → validate r ≡ none
      → understand c validate (ok q) ≡ ok r
  understood q r d v = ap (checked validate) d ∙ ap (λ e. accept e r) v

  transact-reply :
      (conn : Conn) (p q more : List ℕ) (r : A)
      → conn.max_frame_bytes < 2 ^ 32
      → IsCarried conn p
      → IsNext conn q more
      → c.decode q ≡ some r
      → validate r ≡ none
      → let x = transact c validate conn p in
        (x.reply ≡ ok r) × (x.sent ≡ framed p) × (x.conn.incoming ≡ more)
  unfolding transact after_write
  transact-reply conn p q more r m k n d v =
      let w = write_frame conn.writes p in
      let e = write_frame-done conn.writes p k.something k.progress k.enough in
      let i = read_next conn q more m n in
      subst
        (λ o.
          ((after_write o c validate conn w).reply ≡ ok r)
          × ((after_write o c validate conn w).sent ≡ framed p)
          × ((after_write o c validate conn w).conn.incoming ≡ more))
        (sym e)
        (
          ap (λ x. understand c validate x.0) i ∙ understood q r d v,
          write_frame-sent conn.writes p e,
          ap (λ x. x.1) i,
        )

-- With a limit on frames below 2 ^ 32: a request whose encoding the connection carries, to a worker
-- whose next frame encodes an answer to it, succeeds with that answer. The request goes out as one
-- frame, and only the answer's frame is taken in.
pub send_request-answered :
    (out : Codec RequestEnvelope) (back : Codec ResponseEnvelope) (conn : Conn)
    (req : RequestEnvelope) (r : ResponseEnvelope) (p q more : List ℕ)
    → conn.max_frame_bytes < 2 ^ 32
    → out.encode (complete req) ≡ some p
    → IsCarried conn p
    → IsNext conn q more
    → back.decode q ≡ some r
    → IsAnswer r req.id
    → let x = send_request out back conn req in
      (x.reply ≡ ok r) × (x.sent ≡ framed p) × (x.conn.incoming ≡ more)
unfolding send_request send_encoded send_sized
send_request-answered out back conn req r p q more m e k n d a =
    let small : (is_too_large conn p ≡ false) =
      le→ltb conn.max_frame_bytes (length p % 2 ^ 32) (omega (arith, k.small)) in
    subst
      (λ b.
        let x = with_deadline b conn (send_encoded back conn req.id (out.encode (complete req))) in
        (x.reply ≡ ok r) × (x.sent ≡ framed p) × (x.conn.incoming ≡ more))
      (sym k.timed)
      (subst
        (λ o.
          ((send_encoded back conn req.id o).reply ≡ ok r)
          × ((send_encoded back conn req.id o).sent ≡ framed p)
          × ((send_encoded back conn req.id o).conn.incoming ≡ more))
        (sym e)
        (subst
          (λ b.
            ((send_sized b back conn req.id p).reply ≡ ok r)
            × ((send_sized b back conn req.id p).sent ≡ framed p)
            × ((send_sized b back conn req.id p).conn.incoming ≡ more))
          (sym small)
          (transact-reply back (λ x. validate_response x req.id) conn p q more r m k n d
            (IsAnswer-validate_response r req.id a))))
