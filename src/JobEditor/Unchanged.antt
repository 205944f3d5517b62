-- ===== src/JobEditor/Unchanged.antt =====
-- Opening a job in the editor of job_editor.rs and saving it as it is.
use rustcopy.Base.{
  is_some, or_else, unwrap_or, ℕ, ◌≡◌, refl, String, Bool, true, false, not, ◌&&◌, Option, none,
  some, ◌==◌, bool_eq, nat_eq, string_eq, list_eq, option_eq, eq_self, ok, ◌>>◌, arith,
  if◌then◌else◌,
}
use rustcopy.Errors.{editor_command_invalid}
use rustcopy.Generations.{backup_type_eq}
use rustcopy.Checkpoint.{hash_algorithm_eq}
use rustcopy.Strings.{trim, is_empty_string, any_char, is_control}
use rustcopy.Config.{JobConfig, merged_over}
use rustcopy.JobEditor.{
  CommandPermit, validate_job_name, refuse_if, check_retention, check_threads, check_draft,
  changed_command, resolve_command, wanted_command, base_of, apply_draft_with, trimmed, has_control,
}
use rustcopy.JobEditor.Draft.{JobDraft, draft_from}
use rustcopy.JobEditor.Pinned.{pinned}
use rustcopy.JobEditor.Kept.{NotBlank, NotEmpty}

-- A command that the form can show: none, or one line that is not blank.
abbrev pub ShownCommand : Option String → Type 0
ShownCommand none = Unit
ShownCommand (some text) =
    (is_empty_string (trim text) ≡ false) × (any_char is_control (trim text) ≡ false)

pub resolve_command_own :
    (which name : String) (own inherited : Option String) (permit : CommandPermit)
    → ShownCommand (or_else own inherited)
    → resolve_command which name own inherited (or_else own inherited) permit ≡ ok own
unfolding resolve_command wanted_command
resolve_command_own which name own inherited permit h = shown (or_else own inherited) h
  where
    shown :
        (current : Option String)
        → ShownCommand current
        → (refuse_if (has_control (wanted_command current)) (editor_command_invalid name which)
            >> (if wanted_command current == trimmed current
                then ok own
                else changed_command which name own (wanted_command current) permit))
          ≡ ok own
    shown none h = rw (eq_self {A = Option String} none) refl
    shown (some text) h = rw (h.0, h.1) (rw (eq_self (some (trim text))) refl)

-- What the file may hold for a job to be edited: settings that the command line accepts, none of
-- them set to nothing by the job itself.
pub record IsEditable (base inherited : JobConfig) (name : String) : Type 0 where
  pub named : validate_job_name name ≡ ok tt
  pub copies_or_mirrors :
      (unwrap_or (or_else base.mirror inherited.mirror) false
        && is_some (or_else base.backup_type inherited.backup_type))
      ≡ false
  pub backs_up_or_encrypts :
      (is_some (or_else base.backup_type inherited.backup_type)
        && is_some (or_else base.encrypt_aes256 inherited.encrypt_aes256))
      ≡ false
  pub threads : check_threads (or_else base.threads inherited.threads) ≡ ok tt
  pub source : NotBlank base.source
  pub dest : NotBlank base.dest
  pub report_path : NotBlank base.report_path
  pub log_path : NotBlank base.log_path
  pub html_report_path : NotBlank base.html_report_path
  pub exclude_files : NotEmpty base.exclude_files
  pub exclude_dirs : NotEmpty base.exclude_dirs
  pub pre_command : ShownCommand (or_else base.pre_command inherited.pre_command)
  pub post_command : ShownCommand (or_else base.post_command inherited.post_command)

and_not : (b : Bool) → (b && not b) ≡ false
and_not true = refl
and_not false = refl

and_not_and : (b c : Bool) → (b && not b && c) ≡ false
and_not_and true c = refl
and_not_and false c = refl

-- A form that holds what the job does now passes the checks, with retention as it is or taken off.
check_draft_with :
    (base inherited : JobConfig) (name : String) (keep : Option ℕ)
    → IsEditable base inherited name
    → check_retention name (or_else base.keep_generations inherited.keep_generations) keep ≡ ok tt
    → check_draft
        (merged_over base inherited)
        (record (draft_from (merged_over base inherited) name) { keep_generations = keep })
      ≡ ok tt
unfolding check_draft draft_from merged_over
check_draft_with base inherited name keep e kept =
    rw (e.named, and_not (unwrap_or (or_else base.mirror inherited.mirror) false))
      (rw
        (
          kept,
          and_not_and (unwrap_or (or_else base.no_prescan inherited.no_prescan) false)
              (unwrap_or (or_else base.mirror inherited.mirror) false),
          e.copies_or_mirrors,
          e.backs_up_or_encrypts,
          e.threads,
        )
        refl)

check_retention-none : (name : String) (keep : Option ℕ) → check_retention name keep none ≡ ok tt
check_retention-none name none = refl
check_retention-none name (some from) = refl

-- The form with the boxes of retention and of the first command emptied.
abbrev pub emptied : JobDraft → JobDraft
emptied draft = record draft { keep_generations = none; pre_command = none }

pub check_draft-emptied :
    (base inherited : JobConfig) (name : String)
    → IsEditable base inherited name
    → check_draft
        (merged_over base inherited)
        (emptied (draft_from (merged_over base inherited) name))
      ≡ ok tt
unfolding check_draft
check_draft-emptied base inherited name e =
    check_draft_with base inherited name none e (check_retention-none name _)

pub resolve_command_emptied :
    (which name : String) (own inherited : Option String) (permit : CommandPermit)
    (command : String)
    → own ≡ some command
    → resolve_command which name own inherited none permit ≡ ok none
unfolding resolve_command wanted_command changed_command
resolve_command_emptied which name own inherited permit command h = rw h (rw differs refl)
  where
    differs : (none == some (trim command)) ≡ false
    differs = ground arith

pub accepting :
    (own : Option JobConfig) (inherited : JobConfig) (draft : JobDraft) (permit : CommandPermit)
    (pre post : Option String)
    → check_draft (merged_over (base_of own) inherited) draft ≡ ok tt
    → resolve_command "pre_command" draft.name
        (base_of own).pre_command
        inherited.pre_command
        draft.pre_command
        permit
      ≡ ok pre
    → resolve_command "post_command" draft.name
        (base_of own).post_command
        inherited.post_command
        draft.post_command
        permit
      ≡ ok post
    → apply_draft_with own inherited draft permit
      ≡ ok (pinned (base_of own) inherited draft pre post)
unfolding apply_draft_with
accepting own inherited draft permit pre post checked before after =
    rw checked (rw (before, after) refl)
