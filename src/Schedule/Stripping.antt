-- ===== src/Schedule/Stripping.antt =====
-- The arguments of a scheduled run: `strip_schedule_flags` of crates/rustcopy-core/src/schedule.rs.
use rustcopy.Base.{
  String, Bool, true, false, not, ◌&&◌, ◌||◌, List, [], ◌∷◌, string_eq, contains, if◌then◌else◌,
}
use rustcopy.Strings.{codes, starts_with, append}

abbrev pub schedule_only_flags : List String
schedule_only_flags = "--install-schedule" ∷ "--schedule-name" ∷ "--uninstall-schedule" ∷ []

abbrev pub schedule_only_switches : List String
schedule_only_switches = "--schedule-elevated" ∷ []

-- `--flag=value`
abbrev pub assigns : List String → String → Bool
assigns [] arg = false
assigns (flag ∷ flags) arg = starts_with (codes (append flag "=")) (codes arg) || assigns flags arg

-- The next token is the value of this one.
abbrev pub takes_value : String → Bool
takes_value arg = not (contains schedule_only_switches arg) && contains schedule_only_flags arg

abbrev pub is_schedule_only : String → Bool
is_schedule_only arg =
    contains schedule_only_switches arg
    || contains schedule_only_flags arg
    || assigns schedule_only_flags arg

-- From a token on, which is to be skipped or not.
unfoldable pub strip_from : Bool → List String → List String
strip_from skip [] = []
strip_from true (arg ∷ args) = strip_from false args
strip_from false (arg ∷ args) =
    let rest = strip_from (takes_value arg) args in
    if is_schedule_only arg then rest else arg ∷ rest

unfoldable pub strip_schedule_flags : List String → List String
strip_schedule_flags args = strip_from false args
