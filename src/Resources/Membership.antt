-- ===== src/Resources/Membership.antt =====
-- internal/resources/self_cgroup.go: /proc/self/cgroup. Lines longer than the scanner's buffer are left out.
use text.Mathlib.Text.{◌==◌ as str_eq}
use eregion.Prelude.{◌||◌, Option, none, some, List, [], ◌∷◌, String, if◌then◌else◌, ◌==◌}
use eregion.Prelude.Texts.{is_empty, trim_space, split, cut}
use eregion.Resources.Types.{CgroupMembership}

abbrev pub or_first : String → String → String
or_first kept path = if is_empty kept then path else kept

abbrev pub note_controller : CgroupMembership → String → String → CgroupMembership
note_controller m path c =
    if str_eq c "cpu" || str_eq c "cpuacct"
    then record m { cpu = or_first m.cpu path }
    else if str_eq c "memory"
    then record m { memory = or_first m.memory path }
    else if str_eq c "cpuset"
    then record m { cpu_set = or_first m.cpu_set path }
    else m

unfoldable pub note_controllers : CgroupMembership → String → List String → CgroupMembership
note_controllers m path [] = m
note_controllers m path (c ∷ cs) = note_controllers (note_controller m path (trim_space c)) path cs

abbrev pub first_version : CgroupMembership → CgroupMembership
first_version m = if m.version == 0 then record m { version = 1 } else m

abbrev pub or_slash : String → String
or_slash s = if is_empty s then "/" else s

-- A line `0::/path` is of version 2, one `id:controllers:/path` of version 1.
abbrev pub note_parts : CgroupMembership → String → Option (String × String) → CgroupMembership
note_parts m id none = m
note_parts m id (some (controllers, path)) =
    if is_empty controllers
    then (if str_eq id "0" then record m { version = 2; unified = or_slash path } else m)
    else note_controllers (first_version m) path (split b',' controllers)

abbrev pub note_line : CgroupMembership → Option (String × String) → CgroupMembership
note_line m none = m
note_line m (some (id, rest)) = note_parts m id (cut b':' rest)

unfoldable pub note_lines : CgroupMembership → List String → CgroupMembership
unfolding note_controllers
note_lines m [] = m
note_lines m (l ∷ ls) =
    let line = trim_space l in
    note_lines (if is_empty line then m else note_line m (cut b':' line)) ls

abbrev pub prefer_v2 : CgroupMembership → CgroupMembership
prefer_v2 m = if is_empty m.unified then m else record m { version = 2 }

abbrev pub no_membership : CgroupMembership
no_membership = record { version = 0; unified = ""; cpu = ""; memory = ""; cpu_set = "" }

unfoldable pub parse_self_cgroup : String → CgroupMembership
unfolding note_lines
parse_self_cgroup content =
    if is_empty (trim_space content)
    then no_membership
    else prefer_v2 (note_lines no_membership (split 10 content))
