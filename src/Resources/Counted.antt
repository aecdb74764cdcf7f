-- ===== src/Resources/Counted.antt =====
-- What `ParseCPUSet` counts.
use mathlib.Core.Path.{subst}
use eregion.Prelude.{
  ℕ, zero, suc, ◌+◌, ◌≡◌, refl, ap, ◌∙◌, Bool, true, false, ◌||◌, ◌&&◌, List, [], ◌∷◌, inl, inr,
  Bool-cases, arith, ltb, leb, ==→eq, ==_self,
}
use eregion.Prelude.Int.{ℤ, pos, negsuc, pos_part, neg_part}
use eregion.Resources.CpuSet.{eq_ℤ, succ_ℤ, is_seen, see, see_range}

pub eq_ℤ→eq : (a b : ℤ) → eq_ℤ a b ≡ true → a ≡ b
eq_ℤ→eq (pos a) (pos b) h = ap pos (==→eq a b h)
eq_ℤ→eq (negsuc a) (negsuc b) h = ap negsuc (==→eq a b h)
eq_ℤ→eq (pos a) (negsuc b) h = cc
eq_ℤ→eq (negsuc a) (pos b) h = cc

pub eq_ℤ_self : (a : ℤ) → eq_ℤ a a ≡ true
eq_ℤ_self (pos a) = ==_self a
eq_ℤ_self (negsuc a) = ==_self a

-- Each number once.
abbrev pub AreOnce : List ℤ → Type 0
AreOnce [] = Unit
AreOnce (i ∷ is) = (is_seen is i ≡ false) × AreOnce is

pub see-AreOnce : (seen : List ℤ) (i : ℤ) → AreOnce seen → AreOnce (see seen i)
see-AreOnce seen i h = elim (Bool-cases (is_seen seen i)) [ inl e ↦ rw e h | inr e ↦ rw e (e, h) ]

pub see_range-AreOnce :
    (seen : List ℤ) (start : ℤ) (n : ℕ) → AreOnce seen → AreOnce (see_range seen start n)
unfolding see_range
see_range-AreOnce seen start zero h = h
see_range-AreOnce seen start (suc n) h =
    see_range-AreOnce (see seen start) (succ_ℤ start) n (see-AreOnce seen start h)

is_seen_cons : (s : ℤ) (ss : List ℤ) (k : ℤ) → is_seen (s ∷ ss) k ≡ (eq_ℤ s k || is_seen ss k)
is_seen_cons s ss k = elim (Bool-cases (eq_ℤ s k)) [ inl e ↦ rw e refl | inr e ↦ rw e refl ]

pub is_seen-see : (seen : List ℤ) (i k : ℤ) → is_seen (see seen i) k ≡ (eq_ℤ i k || is_seen seen k)
is_seen-see seen i k = elim (Bool-cases (is_seen seen i)) [
  | inl e ↦ elim (Bool-cases (eq_ℤ i k)) [
    | inl f ↦ rw (e, f) (subst (λ j. is_seen seen j ≡ true) (eq_ℤ→eq i k f) e)
    | inr f ↦ rw (e, f) refl
  ]
  | inr e ↦ rw e (is_seen_cons i seen k)
]

-- From `start` on, so many.
abbrev pub in_range : ℤ → ℕ → ℤ → Bool
in_range start n k =
    leb (pos_part start + neg_part k) (pos_part k + neg_part start)
    && ltb (pos_part k + neg_part start) (pos_part start + neg_part k + n)

in_range_zero : (start k : ℤ) → in_range start zero k ≡ false
in_range_zero start k = ground arith

in_range-suc :
    (start : ℤ) (n : ℕ) (k : ℤ)
    → in_range start (suc n) k ≡ (eq_ℤ start k || in_range (succ_ℤ start) n k)
in_range-suc (pos a) n (pos b) = ground arith
in_range-suc (pos a) n (negsuc b) = ground arith
in_range-suc (negsuc zero) n (pos b) = ground arith
in_range-suc (negsuc zero) n (negsuc b) = ground arith
in_range-suc (negsuc (suc a)) n (pos b) = ground arith
in_range-suc (negsuc (suc a)) n (negsuc b) = ground arith

or_shift : (a b c : Bool) → ((a || b) || c) ≡ (b || (a || c))
or_shift true true c = refl
or_shift true false c = refl
or_shift false true c = refl
or_shift false false c = refl

or_false : (b : Bool) → b ≡ (b || false)
or_false true = refl
or_false false = refl

pub is_seen-see_range :
    (seen : List ℤ) (start : ℤ) (n : ℕ) (k : ℤ)
    → is_seen (see_range seen start n) k ≡ (is_seen seen k || in_range start n k)
unfolding see_range
is_seen-see_range seen start zero k = rw (in_range_zero start k) (or_false (is_seen seen k))
is_seen-see_range seen start (suc n) k =
    is_seen-see_range (see seen start) (succ_ℤ start) n k
    ∙ rw (is_seen-see seen start k, in_range-suc start n k)
        (or_shift (eq_ℤ start k) (is_seen seen k) (in_range (succ_ℤ start) n k))
