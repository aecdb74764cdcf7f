-- ===== src/Protocol/Accepted.antt =====
-- What is read as a frame was framed.
use eregion.Prelude.{
  ℕ, ◌≤◌, ◌<◌, ◌≡◌, refl, sym, ap, ◌∙◌, inl, inr, List, [], ◌∷◌, ◌++◌, ltb, ◌==◌, length, take,
  drop, arith, All, take-append-drop, length-take, Bool-cases,
}
use eregion.Prelude.Results.{Result, ok, fail, ok_eq, ok_ne_fail}
use eregion.Protocol.Frame.{
  FrameError, empty_frame, frame_too_large, end_of_file, put_uint32, uint32, read_payload,
  read_frame,
}
use eregion.Protocol.Framing.{framed, put_uint32-uint32}

ok_pair :
    {a b p q : List ℕ} {r : Result FrameError (List ℕ) × List ℕ}
    → r ≡ (ok a, b)
    → r ≡ (ok p, q)
    → (p ≡ a) × (q ≡ b)
ok_pair {a} {b} {p} {q} e h = (ok_eq (ap (λ x. x.0) (sym h ∙ e)), ap (λ x. x.1) (sym h ∙ e))

no_pair :
    {f : FrameError} {b p q : List ℕ} {r : Result FrameError (List ℕ) × List ℕ}
    → r ≡ (fail f, b)
    → r ≡ (ok p, q)
    → ⊥
no_pair e h = ok_ne_fail (ap (λ x. x.0) (sym h ∙ e))

payload_accepted :
    (most n : ℕ) (rest p more : List ℕ)
    → read_payload most n rest ≡ (ok p, more)
    → (0 < n) × (n ≤ most) × (n ≤ length rest) × (p ≡ take n rest) × (more ≡ drop n rest)
unfolding read_payload
payload_accepted most n rest p more h = elim (Bool-cases (n == 0)) [
  | inl e ↦ absurd (no_pair {f = empty_frame} {b = rest} (rw e refl) h)
  | inr e ↦ elim (Bool-cases (ltb most n)) [
    | inl f ↦ absurd (no_pair {f = frame_too_large} {b = rest} (rw (e, f) refl) h)
    | inr f ↦ elim (Bool-cases (ltb (length rest) n)) [
      | inl g ↦ absurd (no_pair {f = end_of_file} {b = []} (rw (e, f, g) refl) h)
      | inr g ↦
          let (x, y) = ok_pair {a = take n rest} {b = drop n rest} (rw (e, f, g) refl) h in
          (ground (arith, e), ground (arith, f), ground (arith, g), x, y)
    ]
  ]
]

-- Whatever is accepted from a stream of bytes was framed: the payload is not empty and within the
-- limit, and the bytes read are those of its frame, followed by what is left.
pub read_frame-framed :
    (most : ℕ) (s p more : List ℕ)
    → All (λ b. b < 256) s
    → read_frame most s ≡ (ok p, more)
    → (0 < length p) × (length p ≤ most) × (s ≡ framed p ++ more)
unfolding read_frame put_uint32
read_frame-framed most (a ∷ b ∷ c ∷ d ∷ rest) p more (ha, (hb, (hc, (hd, _)))) e =
    let n = uint32 a b c d in
    let (pos, small, enough, is_p, is_more) = payload_accepted most n rest p more e in
    let size : (length p ≡ n) = ap length is_p ∙ (length-take n rest ∙ omega (arith, enough)) in
    (
      omega (arith, size, pos),
      omega (arith, size, small),
      sym (
          ap (λ m. put_uint32 m ++ (p ++ more)) size
          ∙ (ap (λ l. l ++ (p ++ more)) (put_uint32-uint32 a b c d ha hb hc hd)
              ∙ ap (λ l. a ∷ b ∷ c ∷ d ∷ l)
                  (ap (λ l. l ++ more) is_p
                    ∙ (ap (λ l. take n rest ++ l) is_more ∙ take-append-drop n rest)))),
    )
read_frame-framed most [] p more h e = absurd (no_pair refl e)
read_frame-framed most (a ∷ []) p more h e = absurd (no_pair refl e)
read_frame-framed most (a ∷ b ∷ []) p more h e = absurd (no_pair refl e)
read_frame-framed most (a ∷ b ∷ c ∷ []) p more h e = absurd (no_pair refl e)
