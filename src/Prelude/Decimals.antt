-- ===== src/Prelude/Decimals.antt =====
-- What the program uses of Go's `strconv` on decimal integers.
use Prim.Native.Char.{code}
use Prim.Native.String.{String}
use Prim.Native.Nat.{ℕ, zero, suc, ◌+◌, ◌*◌, ◌-◌, ◌^◌}
use mathlib.Core.Path.{◌≡◌, refl}
use mathlib.Core.Bool.{◌&&◌}
use mathlib.Core.Option.{Option, none, some}
use eregion.Prelude.Int.{ℤ, pos, negsuc}
use eregion.Prelude.Tests.{if◌then◌else◌, leb, ◌==◌}
use eregion.Prelude.Texts.{is_empty}

-- The decimal digits of a text, as a number.
unfoldable pub digits : ℕ → String → Option ℕ
digits n String.[] = some n
digits n (String.◌∷◌ c s) =
    let rest = digits (n * 10 + (code c - b'0')) s in
    if leb b'0' (code c) && leb (code c) b'9' then rest else none

abbrev pub at_most : ℕ → Option ℕ → Option ℕ
at_most m none = none
at_most m (some n) = if leb n m then some n else none

-- `strconv.ParseUint(s, 10, 64)`
unfoldable pub parse_uint : String → Option ℕ
unfolding digits
parse_uint s = if is_empty s then none else at_most (2 ^ 64 - 1) (digits 0 s)

abbrev pub within_int : ℕ → String → Option ℕ
within_int m s = if is_empty s then none else at_most m (digits 0 s)

abbrev pub negated : Option ℕ → Option ℤ
negated none = none
negated (some zero) = some (pos 0)
negated (some (suc n)) = some (negsuc n)

abbrev pub positive : Option ℕ → Option ℤ
positive none = none
positive (some n) = some (pos n)

-- `strconv.Atoi` and `strconv.ParseInt(s, 10, 64)`
unfoldable pub parse_int : String → Option ℤ
unfolding digits
parse_int String.[] = none
parse_int (String.◌∷◌ c s) =
    if code c == b'-'
    then negated (within_int (2 ^ 63) s)
    else if code c == b'+'
    then positive (within_int (2 ^ 63 - 1) s)
    else positive (within_int (2 ^ 63 - 1) (String.◌∷◌ c s))

integers : parse_int "-12" ≡ some (negsuc 11)
unfolding parse_int
integers = refl
