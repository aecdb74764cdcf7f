-- ===== src/Worker/Scale/Slots.antt =====
-- What growing and retiring do to the slots.
use eregion.Prelude.{
  ℕ, zero, suc, ◌+◌, ◌≡◌, refl, some, List, [], ◌∷◌, ◌++◌, ltb, length, get_elem?, arith,
  length-append, get_elem?-append_left,
}
use eregion.Worker.Types.{Slot}
use eregion.Worker.Scale.{new_slot, grow, retire}

pub length-grow : (n : ℕ) (slots : List Slot) → length (grow n slots) ≡ n + length slots
unfolding grow
length-grow zero slots = omega arith
length-grow (suc n) slots =
    let new : List Slot = new_slot (length slots + 1) ∷ [] in
    omega (arith, length-grow n (slots ++ new), length-append slots new)

pub get_elem?-grow :
    (n : ℕ) (slots : List Slot) (k : ℕ) {s : Slot}
    → get_elem? slots k ≡ some s
    → get_elem? (grow n slots) k ≡ some s
unfolding grow
get_elem?-grow zero slots k h = h
get_elem?-grow (suc n) slots k h =
    let new : List Slot = new_slot (length slots + 1) ∷ [] in
    get_elem?-grow n (slots ++ new) k (get_elem?-append_left slots new k h)

pub length-retire : (n i : ℕ) (slots : List Slot) → length (retire n i slots) ≡ length slots
unfolding retire
length-retire n i [] = refl
length-retire n i (s ∷ slots) = omega (arith, length-retire n (i + 1) slots)

pub get_elem?-retire :
    (n i : ℕ) (slots : List Slot) (k : ℕ) (s : Slot)
    → get_elem? slots k ≡ some s
    → get_elem? (retire n i slots) k ≡ some (record s { retired = ltb n (i + k + 1) })
unfolding retire
get_elem?-retire n i [] k s h = cc
get_elem?-retire n i (x ∷ slots) zero s h = ground arith
get_elem?-retire n i (x ∷ slots) (suc k) s h =
    ground (arith, get_elem?-retire n (i + 1) slots k s h)

-- The slot at position `k` from `i` on has the number `i + k + 1`, as the code numbers them.
abbrev pub IsNumbered : ℕ → List Slot → Type 0
IsNumbered i [] = Unit {0}
IsNumbered i (s ∷ ss) = (s.index ≡ i + 1) × IsNumbered (i + 1) ss

IsNumbered-append :
    (i : ℕ) (xs : List Slot) (s : Slot)
    → IsNumbered i xs
    → s.index ≡ i + length xs + 1
    → IsNumbered i (xs ++ (s ∷ []))
IsNumbered-append i [] s h e = (omega arith, tt)
IsNumbered-append i (x ∷ xs) s h e = (h.0, IsNumbered-append (i + 1) xs s h.1 (omega arith))

pub grow-IsNumbered : (n : ℕ) (slots : List Slot) → IsNumbered 0 slots → IsNumbered 0 (grow n slots)
unfolding grow
grow-IsNumbered zero slots h = h
grow-IsNumbered (suc n) slots h =
    grow-IsNumbered n (slots ++ (new_slot (length slots + 1) ∷ []))
      (IsNumbered-append 0 slots (new_slot (length slots + 1)) h (omega arith))

pub retire-IsNumbered :
    (n i j : ℕ) (slots : List Slot) → IsNumbered j slots → IsNumbered j (retire n i slots)
unfolding retire
retire-IsNumbered n i j [] h = tt
retire-IsNumbered n i j (s ∷ slots) h = (h.0, retire-IsNumbered n (i + 1) (j + 1) slots h.1)
