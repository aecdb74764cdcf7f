-- ===== src/Prelude/Paths.antt =====
-- What the program uses of Go's `path`.
use Prim.Native.String
use Prim.Native.String.{String}
use text.Mathlib.Text.{◌==◌ as str_eq, starts_with}
use mathlib.Core.Path.{◌≡◌, refl}
use mathlib.Core.Bool.{◌||◌}
use mathlib.Core.List.{List, [], ◌∷◌, reverse}
use eregion.Prelude.Tests.{if◌then◌else◌}
use eregion.Prelude.Texts.{is_empty, split}

-- `path.Clean` of a rooted path, by its parts: `out` holds those kept so far, the last one first.
unfoldable pub clean_parts : List String → List String → List String
clean_parts out [] = out
clean_parts out (p ∷ ps) =
    clean_parts
      (if is_empty p || str_eq p "."
        then out
        else if str_eq p ".."
        then elim out [ [] ↦ [] | _ ∷ above ↦ above ]
        else p ∷ out)
      ps

abbrev pub join_parts : List String → String
join_parts [] = ""
join_parts (p ∷ ps) = String.◌++◌ "/" (String.◌++◌ p (join_parts ps))

abbrev pub rooted : List String → String
rooted [] = "/"
rooted (p ∷ ps) = join_parts (p ∷ ps)

unfoldable pub parts_of : String → List String
unfolding clean_parts split
parts_of s = reverse (clean_parts [] (split b'/' s))

unfoldable pub clean : String → String
unfolding parts_of
clean s = rooted (parts_of s)

-- A relative path keeps the `..` that it begins with.
abbrev pub up : List String → List String
up [] = ".." ∷ []
up (p ∷ ps) = if str_eq p ".." then ".." ∷ p ∷ ps else ps

unfoldable pub clean_relative : List String → List String → List String
clean_relative out [] = out
clean_relative out (p ∷ ps) =
    clean_relative
      (if is_empty p || str_eq p "." then out else if str_eq p ".." then up out else p ∷ out) ps

abbrev pub relative : List String → String
relative [] = "."
relative (p ∷ []) = p
relative (p ∷ ps) = let rest = relative ps in String.◌++◌ p (String.◌++◌ "/" rest)

-- `path.Clean`
unfoldable pub path_clean : String → String
unfolding clean clean_relative split
path_clean s =
    if starts_with s "/" then clean s else relative (reverse (clean_relative [] (split b'/' s)))

cleaned_relative : path_clean "../a/./../b//c" ≡ "../b/c"
unfolding path_clean
cleaned_relative = refl

cleaned : clean "//a/./b/../c/" ≡ "/a/c"
unfolding clean
cleaned = refl
