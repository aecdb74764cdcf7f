-- ===== src/Resources/CpuSet.antt =====
-- internal/resources/cgroup.go: `ParseCPUSet`. A range that ends at the greatest `int` is left out: the loop
-- over it would not end.
use eregion.Prelude.{
  ℕ, zero, suc, ◌+◌, ◌-◌, Bool, true, false, Option, none, some, List, [], ◌∷◌, String,
  if◌then◌else◌, length, ◌==◌,
}
use eregion.Prelude.Int.{ℤ, pos, negsuc, ltb_ℤ, pos_part, neg_part}
use eregion.Prelude.Results.{Result, ok, fail, ◌>>=◌}
use eregion.Prelude.Texts.{is_empty, trim_space, split, cut}
use eregion.Prelude.Decimals.{parse_int}
use eregion.Resources.Types.{
  ParseError, empty_set, bad_start, bad_end, inverted_range, bad_cpu, no_cpus,
}
use eregion.Resources.Parse.{or_fail}

abbrev pub eq_ℤ : ℤ → ℤ → Bool
eq_ℤ (pos a) (pos b) = a == b
eq_ℤ (negsuc a) (negsuc b) = a == b
eq_ℤ _ _ = false

abbrev pub succ_ℤ : ℤ → ℤ
succ_ℤ (pos n) = pos (suc n)
succ_ℤ (negsuc zero) = pos 0
succ_ℤ (negsuc (suc n)) = negsuc n

-- The keys of `seen`.
abbrev pub is_seen : List ℤ → ℤ → Bool
is_seen [] i = false
is_seen (s ∷ ss) i = let rest = is_seen ss i in if eq_ℤ s i then true else rest

abbrev pub see : List ℤ → ℤ → List ℤ
see seen i = if is_seen seen i then seen else i ∷ seen

-- `for i := start; i <= end; i++`, by how many there are.
unfoldable pub see_range : List ℤ → ℤ → ℕ → List ℤ
see_range seen start zero = seen
see_range seen start (suc n) = see_range (see seen start) (succ_ℤ start) n

abbrev pub see_part : List ℤ → String → Option (String × String) → Result ParseError (List ℤ)
see_part seen part none = do n ← or_fail bad_cpu (parse_int part); ok (see seen n)
see_part seen part (some (a, b)) = do
  start ← or_fail bad_start (parse_int (trim_space a))
  end ← or_fail bad_end (parse_int (trim_space b))
  if ltb_ℤ end start
      then fail inverted_range
      else ok (
          see_range seen start
            (suc ((pos_part end + neg_part start) - (pos_part start + neg_part end))))

unfoldable pub see_parts : List ℤ → List String → Result ParseError (List ℤ)
see_parts seen [] = ok seen
see_parts seen (p ∷ ps) =
    let part = trim_space p in
    let skipped = see_parts seen ps in
    let listed = (see_part seen part (cut b'-' part) >>= (λ more. see_parts more ps)) in
    if is_empty part then skipped else listed

abbrev pub count_seen : List ℤ → Result ParseError ℕ
count_seen [] = fail no_cpus
count_seen (s ∷ ss) = ok (length (s ∷ ss))

unfoldable pub parse_cpu_set : String → Result ParseError ℕ
unfolding see_parts
parse_cpu_set content =
    let s = trim_space content in
    if is_empty s then fail empty_set else (see_parts [] (split b',' s) >>= count_seen)
