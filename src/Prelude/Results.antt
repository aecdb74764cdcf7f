-- ===== src/Prelude/Results.antt =====
-- `(value, error)` results.
use mathlib.Core.Path.{◌≡◌}
use mathlib.Core.Logic.{◌⊎◌, inl, inr}
use mathlib.Core.Path.{refl, sym, subst}
use mathlib.Core.Bool.{Bool, true, false, ◌&&◌}
use mathlib.Core.List.{List, [], ◌∷◌}
use mathlib.Core.Option.{Option, none, some}
use eregion.Prelude.Lists.{All}
use eregion.Prelude.Tests.{if◌then◌else◌}

pub data Result {ℓ κ} (E : Type ℓ) (A : Type κ) : Type (ℓ ⊔ κ) where
  ok : A → Result E A
  fail : E → Result E A

module _ {ℓ κ} {E : Type ℓ} {A : Type κ} where
  pub ok_eq : {a b : A} → Path (Result E A) (ok a) (ok b) → a ≡ b
  ok_eq e = cc

  pub ok_ne_fail : {a : A} {e : E} → Path (Result E A) (ok a) (fail e) → ⊥
  ok_ne_fail h = cc

  pub Result-cases : (r : Result E A) → ((a : A) × (r ≡ ok a)) ⊎ ((e : E) × (r ≡ fail e))
  Result-cases (ok a) = inl (a, refl)
  Result-cases (fail e) = inr (e, refl)

-- A run of `if test { return error }`.
module _ {ℓ} {E : Type ℓ} where
  abbrev pub first_error : List (Bool × E) → Option E
  first_error [] = none
  first_error ((b, e) ∷ cs) = let rest = first_error cs in if b then some e else rest

  abbrev pub IsPassed : List (Bool × E) → Type 0
  IsPassed cs = All (λ c. c.0 ≡ false) cs

  pub first_error-IsPassed : (cs : List (Bool × E)) → first_error cs ≡ none → IsPassed cs
  first_error-IsPassed [] h = tt
  first_error-IsPassed ((true, e) ∷ cs) h = absurd (cc h)
  first_error-IsPassed ((false, e) ∷ cs) h = (refl, first_error-IsPassed cs h)

  pub IsPassed-first_error : (cs : List (Bool × E)) → IsPassed cs → first_error cs ≡ none
  IsPassed-first_error [] h = refl
  IsPassed-first_error ((b, e) ∷ cs) h = rw h.0 (IsPassed-first_error cs h.1)

-- `if err != nil { return err }`
infixl 5 ◌>>=◌
unfoldable pub ◌>>=◌ {ℓ κ μ} :
    {E : Type ℓ} {A : Type κ} {B : Type μ} → Result E A → (A → Result E B) → Result E B
ok a >>= f = f a
fail e >>= f = fail e

-- What holds of the value, where there is one.
pub record Ensures {ℓ κ μ} {E : Type ℓ} {A : Type κ} (P : A → Type μ) (r : Result E A)
    : Type (ℓ ⊔ κ ⊔ μ) where
  pub holds : (a : A) → r ≡ ok a → P a

module _ {ℓ κ μ} {E : Type ℓ} {A : Type κ} {P : A → Type μ} where
  pub Ensures-ok : {a : A} → P a → Ensures {E = E} P (ok a)
  Ensures-ok p = record { holds = λ b e. subst P (ok_eq e) p }

  pub Ensures-fail : {e : E} → Ensures P (fail e)
  Ensures-fail = record { holds = λ b e. absurd (cc e) }

pub Ensures->>= {ℓ κ μ ν} :
    {E : Type ℓ} {A : Type κ} {B : Type μ} {P : B → Type ν} {m : Result E A} {f : A → Result E B}
    → ((a : A) → m ≡ ok a → Ensures P (f a))
    → Ensures P (m >>= f)
unfolding ◌>>=◌
Ensures->>= {m = ok a} h = h a refl
Ensures->>= {m = fail e} h = Ensures-fail

-- Behind an early return.
pub Ensures-guard {ℓ κ μ} :
    {E : Type ℓ} {A : Type κ} {P : A → Type μ} (b : Bool) (e : E) (r : Result E A)
    → (b ≡ false → Ensures P r)
    → Ensures P (if b then fail e else r)
Ensures-guard true e r h = Ensures-fail
Ensures-guard false e r h = h refl

pub Ensures-map {ℓ κ μ ν} :
    {E : Type ℓ} {A : Type κ} {P : A → Type μ} {Q : A → Type ν} {r : Result E A}
    → ((a : A) → P a → Q a)
    → Ensures P r
    → Ensures Q r
Ensures-map f h = record { holds = λ a e. f a (h.holds a e) }

abbrev pub is_ok {ℓ κ} : {E : Type ℓ} {A : Type κ} → Result E A → Bool
is_ok (ok a) = true
is_ok (fail e) = false

-- A chain succeeds if each step does, where what follows does not depend on the values.
pub is_ok->>= {ℓ κ μ} :
    {E : Type ℓ} {A : Type κ} {B : Type μ} (m : Result E A) (f : A → Result E B) {b c : Bool}
    → is_ok m ≡ b
    → ((a : A) → is_ok (f a) ≡ c)
    → is_ok (m >>= f) ≡ (b && c)
unfolding ◌>>=◌
is_ok->>= (ok a) f h k = rw (sym h) (k a)
is_ok->>= (fail e) f h k = rw (sym h) refl
