-- ===== src/Dispatcher/Body.antt =====
-- internal/dispatcher/dispatcher.go: `readBodyLimited`, over the bytes that the body will yield. The
-- limit is below 2 ^ 63 - 1, so that the byte more that is asked for does not wrap around.
use eregion.Prelude.{
  ℕ, zero, suc, ◌+◌, ◌≤◌, ◌<◌, ◌≡◌, refl, Option, none, some, List, [], ◌∷◌, ltb, if◌then◌else◌,
  length, take, arith, ◌↔◌, sym, ap, ◌∙◌, some_eq,
}
use native.Mathlib.Numerals.{add-one}
use native.Mathlib.Decide.{dec_lt}

-- `absent`: the request has no body. `broken`: reading fails after these bytes.
pub data Stream : Type 0 where
  absent : Stream
  bytes : List ℕ → Stream
  broken : List ℕ → Stream

abbrev limit_body : ℕ → List ℕ → Option (List ℕ)
limit_body most xs = if ltb most (length xs) then none else some xs

-- `io.ReadAll(io.LimitReader(body, max+1))`: an error behind the limit is not met.
unfoldable pub read_body_limited : ℕ → Stream → Option (List ℕ)
read_body_limited most absent = some []
read_body_limited most (bytes xs) = limit_body most (take (most + 1) xs)
read_body_limited most (broken xs) =
    if ltb most (length xs) then limit_body most (take (most + 1) xs) else none

take_all : (n : ℕ) (xs : List ℕ) → length xs ≤ n → take n xs ≡ xs
take_all zero [] h = refl
take_all zero (x ∷ xs) h = absurd (omega arith)
take_all (suc n) [] h = refl
take_all (suc n) (x ∷ xs) h = rw (take_all n xs (omega arith))

take_more : (n : ℕ) (xs : List ℕ) → n < length xs → length (take (suc n) xs) ≡ suc n
take_more n [] h = absurd (omega arith)
take_more zero (x ∷ xs) h = refl
take_more (suc n) (x ∷ xs) h = omega (arith, take_more n xs (omega arith))

limit_long :
    (most : ℕ) (xs : List ℕ) → most < length xs → limit_body most (take (most + 1) xs) ≡ none
limit_long most xs h = rw add-one (ground (arith, take_more most xs h))

limit_short :
    (most : ℕ) (xs : List ℕ) → length xs ≤ most → limit_body most (take (most + 1) xs) ≡ some xs
limit_short most xs h = rw (take_all (most + 1) xs (omega arith)) (ground arith)

-- A body is accepted exactly if it is read without an error and is within the limit, and then all
-- of it: the one byte read beyond the limit is what tells a longer body.
read_body_limited_iff :
    (most : ℕ) (xs got : List ℕ)
    → ((read_body_limited most (bytes xs) ≡ some got) ↔ ((length xs ≤ most) × (got ≡ xs)))
      × (read_body_limited most (broken xs) ≡ none)
unfolding read_body_limited
read_body_limited_iff most xs got = elim (dec_lt most (length xs)) [
  | yes long ↦ (
    (λ e. cc (limit_long most xs long, e), λ h. absurd (omega (arith, h.0))),
    ground (arith, limit_long most xs long),
  )
  | no short ↦ (
    (
      λ e. (omega arith, some_eq (sym e ∙ limit_short most xs (omega arith))),
      λ h. limit_short most xs h.0 ∙ ap some (sym h.1),
    ),
    ground arith,
  )
]
