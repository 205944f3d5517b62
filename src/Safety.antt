-- ===== src/Safety.antt =====
-- The console's safety level: crates/rustcopy-core/src/safety.rs. Of the sentences shown, the names
-- are here; the stored file is a text, read and printed by serde_json (a parameter).
pub mod Levels
use rustcopy.Base.{
  ℕ, String, Bool, true, false, not, ◌&&◌, Option, none, some, List, [], ◌∷◌, ◌++◌, Result, ok, err,
  Eq, ◌==◌, leb, ltb, if◌then◌else◌, nat_eq,
}
use rustcopy.Errors.{IngestError, copy_plan_invalid, io, ErrorKind}

pub data SafetyLevel : Type 0 where
  prudent standard expert : SafetyLevel

pub data Feature : Type 0 where
  schedule elevated_schedule move force_full job_commands : Feature

-- The order of the derived `Ord`.
abbrev pub rank : SafetyLevel → ℕ
rank prudent = 0
rank standard = 1
rank expert = 2

unfoldable pub required_level : Feature → SafetyLevel
required_level schedule = standard
required_level move = standard
required_level force_full = standard
required_level elevated_schedule = expert
required_level job_commands = expert

unfoldable pub allows : SafetyLevel → Feature → Bool
allows level feature = leb (rank (required_level feature)) (rank level)

abbrev pub name : SafetyLevel → String
name prudent = "Prudente"
name standard = "Standard"
name expert = "Esperto"

-- The level whose name the sentence ends with.
unfoldable pub lock_reason : SafetyLevel → Feature → Option String
lock_reason level feature =
    if allows level feature then none else some (name (required_level feature))

abbrev pub can_prepare_schedules : SafetyLevel → Bool
can_prepare_schedules level = allows level schedule

abbrev pub can_prepare_elevated_schedules : SafetyLevel → Bool
can_prepare_elevated_schedules level = allows level elevated_schedule

abbrev pub can_force_full : SafetyLevel → Bool
can_force_full level = allows level force_full

abbrev pub can_edit_job_commands : SafetyLevel → Bool
can_edit_job_commands level = allows level job_commands

abbrev pub can_move : SafetyLevel → Bool
can_move level = allows level move

abbrev pub can_run_attended_purge : SafetyLevel → Bool
can_run_attended_purge level = leb (rank expert) (rank level)

abbrev pub can_run_unattended_purge : SafetyLevel → Bool
can_run_unattended_purge level = false

pub data Confirmation : Type 0 where
  confirmed not_confirmed : Confirmation

-- The folder: the settings file's text, if there is one, and the log of the changes.
pub record Folder : Type 0 where
  pub settings : Option (List ℕ)
  pub log : List (SafetyLevel × SafetyLevel)

pub record Stored : Type 0 where
  pub parse_level : List ℕ → Option SafetyLevel
  pub print_level : SafetyLevel → List ℕ

-- `trim_start_matches('\u{feff}')`
unfoldable pub without_bom : List ℕ → List ℕ
without_bom [] = []
without_bom (c ∷ t) = let rest = without_bom t in if c == 0xFEFF then rest else c ∷ t

unfoldable pub load : Stored → Folder → SafetyLevel
load s dir = elim dir.settings [
  | none ↦ prudent
  | some text ↦ elim (s.parse_level (without_bom text)) [ none ↦ prudent | some level ↦ level ]
]

abbrev pub is_confirmed : Confirmation → Bool
is_confirmed confirmed = true
is_confirmed not_confirmed = false

abbrev pub raise_unconfirmed : String
raise_unconfirmed = "Alzare il livello di sicurezza richiede una conferma."

-- What the disk answers: the error that making the folder or writing the file ends with, if it
-- does, and whether the log can be written.
unfoldable pub set :
    Stored
    → Option IngestError
    → Bool
    → Folder
    → SafetyLevel
    → Confirmation
    → Folder × Result IngestError SafetyLevel
set s failure log_writable dir target confirmation =
    let current = load s dir in
    if rank target == rank current
    then (dir, ok current)
    else if ltb (rank current) (rank target) && not (is_confirmed confirmation)
    then (dir, err (copy_plan_invalid raise_unconfirmed))
    else elim failure [
      | some e ↦ (dir, err e)
      | none ↦ (
        record {
          settings = some (s.print_level target);
          log = if log_writable then dir.log ++ ((current, target) ∷ []) else dir.log;
        },
        ok target,
      )
    ]
