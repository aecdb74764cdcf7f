-- ===== src/Resources/Place.antt =====
-- internal/resources/resolve.go, and `joinRoot` of detect.go.
use Prim.Native.String
use text.Mathlib.Text.{◌==◌ as str_eq, starts_with}
use eregion.Prelude.{
  Bool, true, false, ◌||◌, Option, none, some, List, [], ◌∷◌, String, if◌then◌else◌,
}
use eregion.Prelude.Texts.{is_empty, trim_space}
use eregion.Prelude.Paths.{path_clean}

abbrev pub joined : List String → String
joined [] = ""
joined (p ∷ ps) =
    let rest = joined ps in
    if is_empty p then rest else if is_empty rest then p else String.◌++◌ p (String.◌++◌ "/" rest)

abbrev pub clean_unless_empty : String → String
clean_unless_empty s = if is_empty s then "" else path_clean s

-- `path.Join`
unfoldable pub join_root : List String → String
join_root elems = clean_unless_empty (joined elems)

-- `strings.Contains(s, "..")`
abbrev pub has_dots : String → Bool
has_dots String.[] = false
has_dots (String.◌∷◌ c s) =
    let rest = has_dots s in if starts_with (String.◌∷◌ c s) ".." then true else rest

-- `strings.TrimPrefix(s, "/")`
abbrev pub trim_root : String → String
trim_root String.[] = ""
trim_root (String.◌∷◌ c s) = if starts_with (String.◌∷◌ c s) "/" then s else String.◌∷◌ c s

-- The end of the function, at a path below the root.
unfoldable pub place_below : String → String → Option String
unfolding join_root
place_below root relative =
    let resolved = path_clean (join_root (root ∷ relative ∷ [])) in
    if is_empty relative || str_eq relative "."
    then some root
    else if str_eq resolved root
    then some root
    else if starts_with resolved (String.◌++◌ root "/")
    then some resolved
    else none

unfoldable pub resolve_cgroup_path : String → String → Option String
unfolding place_below
resolve_cgroup_path given_root raw_path =
    let root = path_clean given_root in
    let raw = trim_space raw_path in
    if is_empty root || str_eq root "."
    then none
    else if is_empty raw || str_eq raw "/"
    then some root
    else if has_dots raw
    then none
    else place_below root (trim_root (path_clean (String.◌++◌ "/" raw)))
