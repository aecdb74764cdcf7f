-- ===== src/Protocol/Frame.antt =====
-- internal/protocol/frame.go. A reader is the bytes that it will yield before it ends; a writer is
-- what it makes of the calls of `Write` to come. Bytes are numbers.
use eregion.Prelude.{
  ℕ, ◌+◌, ◌*◌, ◌/◌, ◌%◌, List, [], ◌∷◌, ◌++◌, ltb, ◌==◌, if◌then◌else◌, length, take, drop,
}
use eregion.Prelude.Results.{Result, ok, fail}

pub data FrameError : Type 0 where
  frame_too_large empty_frame end_of_file : FrameError

-- `binary.BigEndian.PutUint32(hdr, uint32(n))`
unfoldable pub put_uint32 : ℕ → List ℕ
put_uint32 n = (n / 16777216 % 256) ∷ (n / 65536 % 256) ∷ (n / 256 % 256) ∷ (n % 256) ∷ []

-- `binary.BigEndian.Uint32(hdr)`
abbrev pub uint32 : ℕ → ℕ → ℕ → ℕ → ℕ
uint32 a b c d = a * 16777216 + (b * 65536 + (c * 256 + d))

-- After the header: the payload, and what the reader has left.
unfoldable pub read_payload : ℕ → ℕ → List ℕ → Result FrameError (List ℕ) × List ℕ
read_payload most n rest =
    if n == 0
    then (fail empty_frame, rest)
    else if ltb most n
    then (fail frame_too_large, rest)
    else if ltb (length rest) n
    then (fail end_of_file, [])
    else (ok (take n rest), drop n rest)

unfoldable pub read_frame : ℕ → List ℕ → Result FrameError (List ℕ) × List ℕ
unfolding read_payload
read_frame most (a ∷ b ∷ c ∷ d ∷ rest) = read_payload most (uint32 a b c d) rest
read_frame most _ = (fail end_of_file, [])

-- What a call of `Write` does: it takes some bytes, or it fails after some.
pub data Write : Type 0 where
  accepted : ℕ → Write
  failed : ℕ → Write

-- `waiting`: the calls that are given do not suffice.
pub data Outcome : Type 0 where
  done waiting broken refused : Outcome

pub record Wrote : Type 0 where
  pub sent : List ℕ
  pub writes : List Write
  pub outcome : Outcome

unfoldable pub write_full : List Write → List ℕ → Wrote
write_full ws [] = record { sent = []; writes = ws; outcome = done }
write_full [] (x ∷ p) = record { sent = []; writes = []; outcome = waiting }
write_full (failed n ∷ ws) (x ∷ p) = record { sent = take n (x ∷ p); writes = ws; outcome = broken }
write_full (accepted n ∷ ws) (x ∷ p) =
    let r = write_full ws (drop n (x ∷ p)) in record r { sent = take n (x ∷ p) ++ r.sent }

-- The payload, if the header is out.
unfoldable pub write_payload : Outcome → Wrote → List ℕ → Wrote
unfolding write_full
write_payload done header payload =
    let r = write_full header.writes payload in record r { sent = header.sent ++ r.sent }
write_payload waiting header payload = header
write_payload broken header payload = header
write_payload refused header payload = header

unfoldable pub write_frame : List Write → List ℕ → Wrote
unfolding write_payload
write_frame ws [] = record { sent = []; writes = ws; outcome = refused }
write_frame ws (x ∷ p) =
    let header = write_full ws (put_uint32 (length (x ∷ p))) in
    write_payload header.outcome header (x ∷ p)
