-- ===== src/Prelude/Texts.antt =====
-- What the program uses of Go's `strings` and `path`, on texts by their code points.
use Prim.Native.Char.{Char, code}
use Prim.Native.String
use Prim.Native.String.append
use Prim.Native.String.{String}
use Prim.Native.Nat.{ℕ}
use text.Mathlib.Text.{◌==◌ as str_eq}
use mathlib.Core.Path.{◌≡◌, refl}
use mathlib.Core.Bool.{not, false, Bool, ◌&&◌, ◌||◌}
use mathlib.Core.Option.{Option, none, some}
use mathlib.Core.List.{List, [], ◌∷◌}
use mathlib.Core.Logic.{inl, inr}
use eregion.Prelude.Tests.{==_self, Bool-cases, Option-cases, if◌then◌else◌, leb, ◌==◌}

-- `unicode.IsSpace`
unfoldable pub is_space : ℕ → Bool
is_space c =
    (leb 9 c && leb c 13)
    || (c == 32
        || (c == 0x85
            || (c == 0xA0
                || (c == 0x1680
                    || ((leb 0x2000 c && leb c 0x200A)
                        || (c == 0x2028
                            || (c == 0x2029 || (c == 0x202F || (c == 0x205F || c == 0x3000)))))))))

unfoldable pub trim_left : String → String
unfolding is_space
trim_left String.[] = ""
trim_left (String.◌∷◌ c s) =
    let rest = trim_left s in if is_space (code c) then rest else String.◌∷◌ c s

abbrev pub is_empty : String → Bool
is_empty s = str_eq s ""

unfoldable pub trim_right : String → String
unfolding is_space
trim_right String.[] = ""
trim_right (String.◌∷◌ c s) =
    let rest = trim_right s in if is_empty rest && is_space (code c) then "" else String.◌∷◌ c rest

-- `strings.TrimSpace`
unfoldable pub trim_space : String → String
unfolding trim_left trim_right
trim_space s = trim_right (trim_left s)

abbrev pub cons_first : Char → List String → List String
cons_first c [] = String.◌∷◌ c "" ∷ []
cons_first c (s ∷ ss) = String.◌∷◌ c s ∷ ss

-- `strings.Split` at one character.
unfoldable pub split : ℕ → String → List String
split sep String.[] = "" ∷ []
split sep (String.◌∷◌ c s) =
    let rest = split sep s in if code c == sep then "" ∷ rest else cons_first c rest

abbrev pub before : Char → Option (String × String) → Option (String × String)
before c none = none
before c (some (a, b)) = some (String.◌∷◌ c a, b)

-- `strings.Cut` at one character: what stands before its first occurrence, and what after.
unfoldable pub cut : ℕ → String → Option (String × String)
cut sep String.[] = none
cut sep (String.◌∷◌ c s) =
    let rest = cut sep s in if code c == sep then some ("", s) else before c rest

pub uncut_cons :
    (sep : ℕ) (c : Char) (s : String)
    → cut sep (String.◌∷◌ c s) ≡ none
    → ((code c == sep) ≡ false) × (cut sep s ≡ none)
unfolding cut
uncut_cons sep c s h = elim (Bool-cases (code c == sep)) [
  | inl e ↦ absurd (cc (h, e))
  | inr e ↦ elim (Option-cases (cut sep s)) [
    | inl f ↦ (e, f)
    | inr ((a, b), f) ↦ absurd (cc (h, e, f))
  ]
]

-- A key without the separator is found again.
pub cut-append :
    (sep : ℕ) (c : Char) (k v : String)
    → code c ≡ sep
    → cut sep k ≡ none
    → cut sep (String.◌++◌ k (String.◌∷◌ c v)) ≡ some (k, v)
unfolding cut
cut-append sep c String.[] v e h = rw (append.nil (String.◌∷◌ c v), e, ==_self sep) refl
cut-append sep c (String.◌∷◌ d k) v e h =
    let (f, g) = uncut_cons sep d k h in
    rw (append.cons d k (String.◌∷◌ c v), f, cut-append sep c k v e g) refl

-- `strings.TrimSuffix(s, "/")`
unfoldable pub trim_slash : String → String
trim_slash String.[] = ""
trim_slash (String.◌∷◌ c s) =
    let rest = trim_slash s in if is_empty s && code c == b'/' then "" else String.◌∷◌ c rest

-- Whether a text goes on with a field.
abbrev pub starts_field : String → Bool
starts_field String.[] = false
starts_field (String.◌∷◌ c s) = not (is_space (code c))

-- `strings.Fields`
unfoldable pub fields : String → List String
unfolding is_space
fields String.[] = []
fields (String.◌∷◌ c s) =
    let rest = fields s in
    if is_space (code c)
    then rest
    else if starts_field s
    then cons_first c rest
    else (String.◌∷◌ c "" ∷ rest)

fields_of : fields " max  100000 " ≡ "max" ∷ "100000" ∷ []
unfolding fields
fields_of = refl

trimmed : trim_space " \t a b " ≡ "a b"
unfolding trim_space
trimmed = refl

cut_once : cut b'=' "k=v=w" ≡ some ("k", "v=w")
unfolding cut
cut_once = refl
