-- ===== src/Resources/Examples.antt =====
-- Detection from concrete files.
use text.Mathlib.Text.{◌==◌ as str_eq}
use eregion.Prelude.{
  ℕ, ◌*◌, ◌/◌, ◌≡◌, inl, inr, refl, Option, none, some, String, if◌then◌else◌, ltb, leb, arith,
}
use eregion.Prelude.Int.{pos, pos_part}
use eregion.Prelude.Results.{◌>>=◌, ok, fail, Ensures}
use eregion.Prelude.Texts.{split, trim_space, fields, cut}
use eregion.Prelude.Paths.{path_clean}
use eregion.Prelude.Decimals.{parse_uint, parse_int}
use eregion.Resources.Types.{Floats, inverted_range}
use eregion.Resources.Parse.{parse_cpu_max, parse_memory_max}
use eregion.Resources.CpuSet.{see_range, parse_cpu_set}
use eregion.Resources.Membership.{parse_self_cgroup}
use eregion.Resources.Place.{resolve_cgroup_path, join_root}
use eregion.Resources.Detect.{detect}
use eregion.Resources.Listed.{Counts, parse_cpu_set-Counts}
use eregion.Resources.Found.{HasCounts, AreNumbers}
use eregion.Resources.Detected.{IsSettled, detect-IsSettled}

abbrev hundredfold : Option ℕ → Option ℕ
hundredfold none = none
hundredfold (some n) = some (n * 100)

-- Hundredths in place of float64.
abbrev hundredths : Floats
hundredths = record {
  F = ℕ;
  of_int = λ n. pos_part n * 100;
  div = λ a b. a * 100 / b;
  less = ltb;
  is_nonpositive = λ a. leb a 0;
  is_positive = λ a. ltb 0 a;
  parse_float = λ s. hundredfold (parse_uint s);
}

hundredths-HasCounts : HasCounts hundredths
hundredths-HasCounts = record { positive = λ n h. ground (arith, h); zero = refl }

abbrev files : String → Option String
files path =
    if str_eq path "/proc/self/cgroup"
    then some "0::/app.slice\n"
    else if str_eq path "/sys/fs/cgroup/app.slice/cpu.max"
    then some "50000 100000\n"
    else if str_eq path "/sys/fs/cgroup/cpuset.cpus.effective"
    then some "0-3,2,7\n"
    else if str_eq path "/sys/fs/cgroup/app.slice/memory.max"
    then some "max\n"
    else if str_eq path "/sys/fs/cgroup/memory.max"
    then some "1048576\n"
    else none

counted : parse_cpu_set "0-3, 2,7\n" ≡ ok 5
unfolding parse_cpu_set split cut trim_space parse_int ◌>>=◌ see_range
counted = refl

inverted : parse_cpu_set "3-1" ≡ fail inverted_range
unfolding parse_cpu_set split cut trim_space parse_int ◌>>=◌
inverted = refl

parse_cpu_set-Counts_example :
    Ensures (Counts (split b',' (trim_space "0-3, 2,7\n"))) (parse_cpu_set "0-3, 2,7\n")
parse_cpu_set-Counts_example = parse_cpu_set-Counts "0-3, 2,7\n"

escape : resolve_cgroup_path "/sys/fs/cgroup" "/../../etc" ≡ none
unfolding resolve_cgroup_path trim_space path_clean
escape = refl

-- Half a CPU.
half : (detect hundredths files "" (pos 8) (pos 8)).available_cpus ≡ 50
unfolding detect join_root resolve_cgroup_path parse_self_cgroup parse_cpu_max parse_memory_max
    parse_cpu_set split cut fields trim_space path_clean parse_uint parse_int ◌>>=◌ see_range
half = refl

-- With hundredths every quota is a number.
hundredths-AreNumbers : AreNumbers hundredths files
hundredths-AreNumbers x (dir, inl g) = let l = g.limit in ground (arith, l)
hundredths-AreNumbers x (dir, inr g) = let l = g.limit in ground (arith, l)

detect-IsSettled_example :
    IsSettled hundredths files "" (pos 8) (pos 8) (detect hundredths files "" (pos 8) (pos 8))
detect-IsSettled_example =
    detect-IsSettled hundredths files "" (pos 8) (pos 8) hundredths-HasCounts hundredths-AreNumbers
