-- ===== src/Schedule.antt =====
-- The command line of a scheduled run: crates/rustcopy-core/src/schedule.rs, `quote_if_needed` and
-- `build_task_arguments`. Texts are lists of code points.
pub mod Split
pub mod Quoting
pub mod Merging
pub mod Spec
pub mod Parsed
pub mod Start
pub mod Search
pub mod Earliest
pub mod Tasks
pub mod Listing
pub mod TaskRows
pub mod Stripping
pub mod Requests
pub mod Elevated
pub mod Unattended
pub mod Installed
use rustcopy.Base.{
  ℕ, Bool, true, false, not, ◌&&◌, ◌||◌, List, [], ◌∷◌, ◌++◌, map, ◌==◌, nat_eq, if◌then◌else◌,
}
use rustcopy.Text.{Text, is_whitespace, is_empty}

abbrev pub quote : ℕ
quote = 34

abbrev pub backslash : ℕ
backslash = 92

abbrev pub space : ℕ
space = 32

abbrev pub any_whitespace : Text → Bool
any_whitespace [] = false
any_whitespace (c ∷ t) = is_whitespace c || any_whitespace t

-- `s.replace('"', "\\\"")`
unfoldable pub escaped : Text → Text
escaped [] = []
escaped (c ∷ t) = let rest = escaped t in if c == quote then backslash ∷ quote ∷ rest else c ∷ rest

unfoldable pub quote_if_needed : Text → Text
quote_if_needed s =
    if is_empty s || any_whitespace s then quote ∷ (escaped s ++ (quote ∷ [])) else s

-- `parts.join(" ")`
abbrev pub join_spaces : List Text → Text
join_spaces [] = []
join_spaces (part ∷ []) = part
join_spaces (part ∷ next ∷ parts) = part ++ (space ∷ join_spaces (next ∷ parts))

unfoldable pub build_task_arguments : List Text → Text
build_task_arguments filtered_args = join_spaces (map quote_if_needed filtered_args)

unfoldable pub build_task_run_command : Text → List Text → Text
build_task_run_command exe_path filtered_args =
    join_spaces (quote_if_needed exe_path ∷ map quote_if_needed filtered_args)
