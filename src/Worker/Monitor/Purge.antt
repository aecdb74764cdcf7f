-- ===== src/Worker/Monitor/Purge.antt =====
-- `purgeIdle` against a plain filter.
use eregion.Prelude.{
  ℕ, suc, ◌+◌, ◌≤◌, ◌<◌, ◌≡◌, sym, ap, ◌∙◌, Bool, true, false, not, List, [], ◌∷◌, ◌++◌, length,
  length-append, keep, arith, Bool-cases, inl, inr, lt→ltb,
}
use mathlib.Core.List.{append_assoc, append-nil}
use eregion.Worker.Types.{Pool}
use eregion.Worker.Monitor.{same_worker, purge_loop, purge_idle}

abbrev pub stays : (ℕ → Bool) → ℕ → Bool
stays gone x = not (gone x)

-- One round on an entry that is sent back.
purge_loop_back :
    (gone : ℕ → Bool) (room n x : ℕ) (rest : List ℕ)
    → gone x ≡ false
    → length rest < room
    → purge_loop gone room (suc n) (x ∷ rest) ≡ purge_loop gone room n (rest ++ (x ∷ []))
unfolding purge_loop
purge_loop_back gone room n x rest e h = rw (e, lt→ltb (length rest) room h)

purge_loop_out :
    (gone : ℕ → Bool) (room n x : ℕ) (rest : List ℕ)
    → gone x ≡ true
    → purge_loop gone room (suc n) (x ∷ rest) ≡ purge_loop gone room n rest
unfolding purge_loop
purge_loop_out gone room n x rest e = rw e

-- The entries still to be looked at stand before those that were sent back.
pub purge_loop-append :
    (gone : ℕ → Bool) (room : ℕ) (xs ys : List ℕ)
    → length xs + length ys ≤ room
    → purge_loop gone room (length xs) (xs ++ ys) ≡ ys ++ keep (stays gone) xs
purge_loop-append gone room [] ys h = unfold purge_loop in sym (append-nil ys)
purge_loop-append gone room (x ∷ xs) ys h = elim (Bool-cases (gone x)) [
  | inl out ↦ rw out (
      purge_loop_out gone room (length xs) x (xs ++ ys) out
      ∙ purge_loop-append gone room xs ys (omega arith))
  | inr back ↦
      rw (back, ← append_assoc ys (x ∷ []) (keep (stays gone) xs))
        (purge_loop_back gone room (length xs) x (xs ++ ys) back
            (omega (arith, length-append xs ys))
          ∙ ap (purge_loop gone room (length xs)) (append_assoc xs ys (x ∷ []))
          ∙ purge_loop-append gone room xs (ys ++ (x ∷ []))
              (omega (arith, length-append ys (x ∷ []))))
]

-- On a channel that is within its capacity, receiving as many workers as it held and sending back
-- those that are not the one purged leaves exactly those others, in their order.
purge_idle-keep :
    (p : Pool) (a : ℕ)
    → length p.channel ≤ p.channel_cap
    → (purge_idle p a).channel ≡ keep (stays (λ x. same_worker p.heap x a)) p.channel
unfolding purge_idle
purge_idle-keep p a h =
    rw (append-nil p.channel) at
      (purge_loop-append (λ x. same_worker p.heap x a) p.channel_cap p.channel [] (omega arith))
