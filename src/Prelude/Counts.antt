-- ===== src/Prelude/Counts.antt =====
-- How often a number stands in a list, and the removal of its first occurrence.
use Prim.Native.Nat.{ℕ, zero, suc, ◌+◌, ◌≤◌, ◌<◌}
use mathlib.Core.Path.{◌≡◌, refl, ap}
use mathlib.Core.Bool.{Bool}
use mathlib.Core.List.{List, [], ◌∷◌, ◌++◌}
use mathlib.Core.Option.{some}
use native.Mathlib.Omega.{arith}
use eregion.Prelude.Tests.{◌==◌, if◌then◌else◌, to_nat}
use eregion.Prelude.Lists.{get_elem?, keep}

unfoldable pub count : ℕ → List ℕ → ℕ
count a [] = 0
count a (x ∷ xs) = to_nat (x == a) + count a xs

unfoldable pub remove : ℕ → List ℕ → List ℕ
remove a [] = []
remove a (x ∷ xs) = if x == a then xs else x ∷ remove a xs

pub count-nil : (a : ℕ) → count a [] ≡ 0
unfolding count
count-nil a = refl

pub count-cons : (a x : ℕ) (xs : List ℕ) → count a (x ∷ xs) ≡ to_nat (x == a) + count a xs
unfolding count
count-cons a x xs = refl

pub count-append : (a : ℕ) (xs ys : List ℕ) → count a (xs ++ ys) ≡ count a xs + count a ys
unfolding count
count-append a [] ys = omega arith
count-append a (x ∷ xs) ys = omega (arith, count-append a xs ys)

-- Taking out one occurrence of `a` lowers its count by one and no other.
pub count-remove :
    (b a : ℕ) (xs : List ℕ) → 0 < count a xs → count b (remove a xs) + to_nat (a == b) ≡ count b xs
unfolding count remove
count-remove b a [] h = absurd (omega arith)
count-remove b a (x ∷ xs) h = ground (arith, count-remove b a xs)

pub count-keep-le : (b : ℕ) (p : ℕ → Bool) (xs : List ℕ) → count b (keep p xs) ≤ count b xs
unfolding count
count-keep-le b p [] = omega arith
count-keep-le b p (x ∷ xs) = ground (arith, count-keep-le b p xs)

pub count-pos : (a : ℕ) (xs : List ℕ) (i : ℕ) → get_elem? xs i ≡ some a → 0 < count a xs
unfolding count
count-pos a [] i h = cc
count-pos a (x ∷ xs) zero h = ground arith
count-pos a (x ∷ xs) (suc i) h = omega (arith, count-pos a xs i h)

-- An entry that stands at most once stands at one position only.
pub count_unique :
    (a : ℕ) (xs : List ℕ) (i j : ℕ)
    → count a xs ≤ 1
    → get_elem? xs i ≡ some a
    → get_elem? xs j ≡ some a
    → i ≡ j
unfolding count
count_unique a [] i j h p q = cc
count_unique a (x ∷ xs) zero zero h p q = refl
count_unique a (x ∷ xs) zero (suc j) h p q = absurd (ground (arith, count-pos a xs j q))
count_unique a (x ∷ xs) (suc i) zero h p q = absurd (ground (arith, count-pos a xs i p))
count_unique a (x ∷ xs) (suc i) (suc j) h p q = ap suc (count_unique a xs i j (omega arith) p q)
