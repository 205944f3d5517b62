-- ===== src/JobEditor.antt =====
-- The write side of the console: crates/rustcopy-core/src/job_editor.rs, with `validate_job_name` of
-- crates/rustcopy-core/src/lib.rs. Reading and writing the TOML text is left to its library.
pub mod Draft
pub mod Pinned
pub mod Proposal
pub mod Effective
pub mod Narrowing
pub mod Kept
pub mod Unchanged
pub mod InEffect
pub mod Uncovering
pub mod Omission
use rustcopy.Base.{
  is_some, or_else, unwrap_or, ℕ, zero, suc, ◌+◌, ◌≡◌, String, Bool, true, false, not, ◌&&◌, ◌||◌,
  Option, none, some, List, [], ◌∷◌, ◌++◌, map, Eq, ◌==◌, nat_eq, string_eq, option_eq, Result, ok,
  err, ◌>>=◌, ◌>>◌, ltb, leb, if◌then◌else◌, get_elem?,
}
use rustcopy.Errors.{
  IngestError, invalid_job_name, invalid_threads, backup_type_and_mirror_conflict,
  backup_type_and_encryption_conflict, editor_cannot_enable_mirror, editor_cannot_set_command,
  editor_command_not_confirmed, editor_command_inherited, editor_command_invalid,
  editor_cannot_introduce_retention, editor_cannot_lower_retention,
  editor_cannot_disable_prescan_on_mirror, editor_cannot_split_single_job_config,
}
use rustcopy.Strings.{
  trim, is_empty_string, any_char, is_control, ends_with, find_char, eq_ignore_ascii_case, append,
  decimal,
}
use rustcopy.Safety.{SafetyLevel, prudent, can_edit_job_commands}
use rustcopy.Config.{JobConfig, no_settings, merged_over, IngestConfig}
use rustcopy.JobEditor.Draft.{JobDraft, draft_from}
use rustcopy.JobEditor.Pinned.{pinned}

-- `< > : " / \ | ? *`
abbrev pub is_reserved : ℕ → Bool
is_reserved c =
    c == 60 || c == 62 || c == 58 || c == 34 || c == 47 || c == 92 || c == 124 || c == 63 || c == 42

abbrev pub device_names : List String
device_names =
    "CON" ∷ "PRN" ∷ "AUX" ∷ "NUL" ∷ "COM1" ∷ "COM2" ∷ "COM3" ∷ "COM4" ∷ "COM5" ∷ "COM6" ∷ "COM7"
    ∷ "COM8" ∷ "COM9" ∷ "LPT1" ∷ "LPT2" ∷ "LPT3" ∷ "LPT4" ∷ "LPT5" ∷ "LPT6" ∷ "LPT7" ∷ "LPT8"
    ∷ "LPT9" ∷ "COM¹" ∷ "COM²" ∷ "COM³" ∷ "LPT¹" ∷ "LPT²" ∷ "LPT³" ∷ []

abbrev pub is_device_name : List String → String → Bool
is_device_name [] name = false
is_device_name (reserved ∷ rest) name =
    eq_ignore_ascii_case reserved name || is_device_name rest name

abbrev pub refuse_if : Bool → IngestError → Result IngestError (Unit {0})
refuse_if true e = err e
refuse_if false e = ok tt

unfoldable pub validate_job_name : String → Result IngestError (Unit {0})
validate_job_name name = elim (find_char is_reserved name) [
  | some bad ↦ err (
      invalid_job_name name
        (append "cannot contain '" (append bad "' (reserved in a Windows filename)")))
  | none ↦
      refuse_if (any_char (λ c. leb 1 c && leb c 0x1F) name) (
        invalid_job_name name "cannot contain a control character (reserved in a Windows filename)")
      >> refuse_if (is_device_name device_names name)
          (invalid_job_name name "is a Windows reserved device name")
      >> refuse_if (ends_with b'.' name || ends_with b' ' name) (
          invalid_job_name name
            "cannot end with '.' or a space (Windows silently strips it, which can make two different names collide on disk)")
]

pub record CommandPermit : Type 0 where
  pub level : SafetyLevel
  pub confirmed : List String

abbrev pub denied : CommandPermit
denied = record { level = prudent; confirmed = [] }

abbrev pub trimmed : Option String → Option String
trimmed none = none
trimmed (some text) = some (trim text)

-- The command that the form asks for: a blank box asks for none.
unfoldable pub wanted_command : Option String → Option String
wanted_command none = none
wanted_command (some text) = if is_empty_string (trim text) then none else some (trim text)

abbrev pub is_confirmed : List String → String → Bool
is_confirmed [] wanted = false
is_confirmed (c ∷ confirmed) wanted = trim c == wanted || is_confirmed confirmed wanted

abbrev pub has_control : Option String → Bool
has_control none = false
has_control (some text) = any_char is_control text

-- A command that differs from the one the job runs now.
unfoldable pub changed_command :
    String
    → String
    → Option String
    → Option String
    → CommandPermit
    → Result IngestError (Option String)
changed_command which name own none permit =
    if is_some own then ok none else err (editor_command_inherited name which)
changed_command which name own (some wanted) permit =
    refuse_if (not (can_edit_job_commands permit.level)) (editor_cannot_set_command name which)
    >> refuse_if (not (is_confirmed permit.confirmed wanted))
        (editor_command_not_confirmed name which)
    >> ok (some wanted)

unfoldable pub resolve_command :
    String
    → String
    → Option String
    → Option String
    → Option String
    → CommandPermit
    → Result IngestError (Option String)
resolve_command which name own inherited draft permit =
    let wanted = wanted_command draft in
    refuse_if (has_control wanted) (editor_command_invalid name which)
    >> (if wanted == trimmed (or_else own inherited)
        then ok own
        else changed_command which name own wanted permit)

-- Retention is not introduced, and not lowered.
abbrev pub check_retention : String → Option ℕ → Option ℕ → Result IngestError (Unit {0})
check_retention name none none = ok tt
check_retention name none (some to) = err (editor_cannot_introduce_retention name)
check_retention name (some from) none = ok tt
check_retention name (some from) (some to) =
    refuse_if (ltb to from) (editor_cannot_lower_retention name from to)

abbrev pub check_threads : Option ℕ → Result IngestError (Unit {0})
check_threads none = ok tt
check_threads (some threads) = refuse_if (threads == 0 || ltb 128 threads) (invalid_threads threads)

-- The rules, read against what the job does now, in the order of the code.
unfoldable pub check_draft : JobConfig → JobDraft → Result IngestError (Unit {0})
check_draft effective draft =
    validate_job_name draft.name
    >> refuse_if (draft.mirror && not (unwrap_or effective.mirror false))
        (editor_cannot_enable_mirror draft.name)
    >> check_retention draft.name effective.keep_generations draft.keep_generations
    >> refuse_if (draft.no_prescan && not (unwrap_or effective.no_prescan false) && draft.mirror)
        (editor_cannot_disable_prescan_on_mirror draft.name)
    >> refuse_if (draft.mirror && is_some draft.backup_type) backup_type_and_mirror_conflict
    >> refuse_if (is_some draft.backup_type && is_some draft.encrypt_aes256)
        backup_type_and_encryption_conflict
    >> check_threads draft.threads

abbrev pub base_of : Option JobConfig → JobConfig
base_of own = unwrap_or own no_settings

unfoldable pub apply_draft_with :
    Option JobConfig → JobConfig → JobDraft → CommandPermit → Result IngestError JobConfig
apply_draft_with own inherited draft commands =
    let base = base_of own in
    check_draft (merged_over base inherited) draft
    >> (resolve_command "pre_command" draft.name base.pre_command inherited.pre_command
          draft.pre_command commands
        >>= λ pre.
            resolve_command "post_command" draft.name base.post_command inherited.post_command
              draft.post_command commands
            >>= λ post. ok (pinned base inherited draft pre post))
