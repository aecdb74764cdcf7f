-- ===== src/Protocol/Framing.antt =====
-- What is written as a frame is read as one.
use eregion.Prelude.{
  ℕ, ◌+◌, ◌/◌, ◌%◌, ◌^◌, ◌≤◌, ◌<◌, ◌≡◌, refl, sym, ap, ◌∙◌, false, List, [], ◌∷◌, ◌++◌, ◌==◌,
  length, take, drop, arith, All, length-append, take-append-drop, length-drop, take-append,
  drop-append, le→ltb,
}
use mathlib.Core.Path.{subst}
use eregion.Prelude.Results.{ok}
use eregion.Protocol.Frame.{
  put_uint32, uint32, read_payload, read_frame, Write, accepted, failed, Outcome, done, waiting,
  broken, refused, Wrote, write_full, write_payload, write_frame,
}

-- Writing in parts: what is out is all of it once the writer is done.
write_full_done :
    (ws : List Write) (p : List ℕ) → (write_full ws p).outcome ≡ done → (write_full ws p).sent ≡ p
unfolding write_full
write_full_done ws [] h = refl
write_full_done [] (x ∷ p) h = absurd (cc h)
write_full_done (failed n ∷ ws) (x ∷ p) h = absurd (cc h)
write_full_done (accepted n ∷ ws) (x ∷ p) h =
    ap (λ l. take n (x ∷ p) ++ l) (write_full_done ws (drop n (x ∷ p)) h)
    ∙ take-append-drop n (x ∷ p)

-- `io.Writer`: no call fails, and each takes something.
abbrev pub IsProgress : Write → Type 0
IsProgress (accepted n) = 0 < n
IsProgress (failed n) = ⊥

uint32-put_uint32 :
    (n : ℕ)
    → n < 4294967296
    → uint32 (n / 16777216 % 256) (n / 65536 % 256) (n / 256 % 256) (n % 256) ≡ n
uint32-put_uint32 n h = omega arith

pub put_uint32-uint32 :
    (a b c d : ℕ)
    → a < 256
    → b < 256
    → c < 256
    → d < 256
    → put_uint32 (uint32 a b c d) ≡ a ∷ b ∷ c ∷ d ∷ []
unfolding put_uint32
put_uint32-uint32 a b c d ha hb hc hd =
    let n = uint32 a b c d in
    let e : (n / 16777216 % 256 ≡ a) = omega arith in
    let f : (n / 65536 % 256 ≡ b) = omega arith in
    let g : (n / 256 % 256 ≡ c) = omega arith in
    let h : (n % 256 ≡ d) = omega arith in
    ap (λ x. x ∷ (n / 65536 % 256) ∷ (n / 256 % 256) ∷ (n % 256) ∷ []) e
    ∙ (ap (λ x. a ∷ x ∷ (n / 256 % 256) ∷ (n % 256) ∷ []) f
        ∙ (ap (λ x. a ∷ b ∷ x ∷ (n % 256) ∷ []) g ∙ ap (λ x. a ∷ b ∷ c ∷ x ∷ []) h))

-- Each call takes a byte at least, so no more calls are needed than there are bytes.
write_full-done :
    (ws : List Write) (p : List ℕ)
    → All IsProgress ws
    → length p ≤ length ws
    → ((write_full ws p).outcome ≡ done)
      × All IsProgress (write_full ws p).writes
      × (length ws ≤ length (write_full ws p).writes + length p)
unfolding write_full
write_full-done ws [] k h = (refl, k, omega arith)
write_full-done [] (x ∷ p) k h = absurd (omega arith)
write_full-done (failed n ∷ ws) (x ∷ p) k h = absurd k.0
write_full-done (accepted n ∷ ws) (x ∷ p) k h =
    let short : (length (drop n (x ∷ p)) ≤ length p) = omega (arith, length-drop n (x ∷ p), k.0) in
    let (d, r, l) = write_full-done ws (drop n (x ∷ p)) k.1 (omega (arith, short)) in
    (d, r, omega (arith, l, short))

-- What a frame is: the length in four bytes, then the payload.
abbrev pub framed : List ℕ → List ℕ
framed p = put_uint32 (length p) ++ p

write_payload-sent :
    (o : Outcome) (w : Wrote) (header p : List ℕ)
    → w.outcome ≡ o
    → (w.outcome ≡ done → w.sent ≡ header)
    → (write_payload o w p).outcome ≡ done
    → (write_payload o w p).sent ≡ header ++ p
unfolding write_payload
write_payload-sent done w header p e h k =
    ap (λ l. l ++ (write_full w.writes p).sent) (h e)
    ∙ ap (λ l. header ++ l) (write_full_done w.writes p k)
write_payload-sent waiting w header p e h k = absurd (cc (e, k))
write_payload-sent broken w header p e h k = absurd (cc (e, k))
write_payload-sent refused w header p e h k = absurd (cc (e, k))

pub write_frame-sent :
    (ws : List Write) (p : List ℕ)
    → (write_frame ws p).outcome ≡ done
    → (write_frame ws p).sent ≡ framed p
unfolding write_frame
write_frame-sent ws [] h = absurd (cc h)
write_frame-sent ws (x ∷ p) h =
    let header = put_uint32 (length (x ∷ p)) in
    write_payload-sent (write_full ws header).outcome (write_full ws header) header (x ∷ p) refl
      (write_full_done ws header) h

pub write_frame-done :
    (ws : List Write) (p : List ℕ)
    → 0 < length p
    → All IsProgress ws
    → length p + 4 ≤ length ws
    → (write_frame ws p).outcome ≡ done
unfolding write_frame put_uint32
write_frame-done ws [] n k h = absurd (omega arith)
write_frame-done ws (x ∷ p) n k h =
    let header = put_uint32 (length (x ∷ p)) in
    let (d, r, l) = write_full-done ws header k (omega arith) in
    subst (λ o. (write_payload o (write_full ws header) (x ∷ p)).outcome ≡ done) (sym d)
      (let (e, _, _) = write_full-done (write_full ws header).writes (x ∷ p) r (omega (arith, l)) in
        e)

zero_test : {n : ℕ} → 0 < n → (n == 0) ≡ false
zero_test h = ground arith

pub read_payload-append :
    (most : ℕ) (p more : List ℕ)
    → 0 < length p
    → length p ≤ most
    → read_payload most (length p) (p ++ more) ≡ (ok p, more)
unfolding read_payload
read_payload-append most p more n l =
    rw
      (
        zero_test n,
        le→ltb most (length p) l,
        le→ltb (length (p ++ more)) (length p) (omega (arith, length-append p more)),
        take-append p more,
        drop-append p more,
      )
      refl

-- A frame that comes in is read as its payload.
pub read_frame-append :
    (most : ℕ) (p more : List ℕ)
    → 0 < length p
    → length p ≤ most
    → most < 2 ^ 32
    → read_frame most (framed p ++ more) ≡ (ok p, more)
unfolding read_frame put_uint32
read_frame-append most p more n l m =
    ap (λ n. read_payload most n (p ++ more)) (uint32-put_uint32 (length p) (omega arith))
    ∙ read_payload-append most p more n l

-- A payload that is not empty and within the limit, which is below 2 ^ 32, is written and read back
-- as it is, with what follows it left to be read, however the writer cuts it up: as long as no call
-- of `Write` fails, each takes something, and there are four more of them than bytes in the payload.
pub read_frame-write_frame :
    (most : ℕ) (ws : List Write) (p more : List ℕ)
    → 0 < length p
    → length p ≤ most
    → most < 2 ^ 32
    → All IsProgress ws
    → length p + 4 ≤ length ws
    → ((write_frame ws p).outcome ≡ done)
      × (read_frame most ((write_frame ws p).sent ++ more) ≡ (ok p, more))
read_frame-write_frame most ws p more n l m k h =
    let d = write_frame-done ws p n k h in
    (
      d,
      ap (λ s. read_frame most (s ++ more)) (write_frame-sent ws p d)
          ∙ read_frame-append most p more n l m,
    )
