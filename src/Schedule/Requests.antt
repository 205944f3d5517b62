-- ===== src/Schedule/Requests.antt =====
-- What the console may ask the command line to do with a schedule: `install_arguments`,
-- `removal_arguments`, `check_set_enabled` and the checks they share, of
-- crates/rustcopy-core/src/schedule.rs. What is read of the configuration file, its absolute path
-- and Unicode's table of letters and digits are parameters.
use rustcopy.Base.{
  ℕ, String, Bool, true, false, not, ◌&&◌, ◌||◌, is_some, List, [], ◌∷◌, ◌==◌, nat_eq, length, leb,
  if◌then◌else◌, Result, ok, err, ◌>>=◌, ◌>>◌,
}
use rustcopy.Errors.{IngestError, schedule}
use rustcopy.Strings.{is_separator, append, codes, ends_with, is_empty_string}
use rustcopy.Safety.{SafetyLevel, standard, name, can_prepare_schedules}
use rustcopy.Config.{IngestConfig}
use rustcopy.JobEditor.{refuse_if}
use rustcopy.JobEditor.Draft.{JobDraft}
use rustcopy.JobEditor.Proposal.{read_drafts}
use rustcopy.Schedule.Spec.{parse_schedule_spec}

-- What stands outside: `char::is_alphanumeric`, the loaded file, and its absolute path.
pub record Outside : Type 0 where
  pub is_alphanumeric : ℕ → Bool
  pub loaded : Result IngestError IngestConfig
  pub absolute : Result IngestError String

abbrev pub starts_with_one_of : ℕ → ℕ → List ℕ → Bool
starts_with_one_of c d [] = false
starts_with_one_of c d (e ∷ t) = e == c || e == d

abbrev pub all_chars : (ℕ → Bool) → List ℕ → Bool
all_chars p [] = true
all_chars p (c ∷ t) = p c && all_chars p t

-- A character that a task's name may have.
abbrev pub is_name_char : (ℕ → Bool) → ℕ → Bool
is_name_char alphanumeric c = alphanumeric c || c == b' ' || c == b'_' || c == b'.' || c == b'-'

unfoldable pub is_task_name : (ℕ → Bool) → String → Bool
is_task_name alphanumeric task =
    not (is_empty_string task)
    && leb (length (codes task)) 64
    && not (starts_with_one_of b' ' b'.' (codes task))
    && not (ends_with b' ' task)
    && all_chars (is_name_char alphanumeric) (codes task)

unfoldable pub validate_task_name : (ℕ → Bool) → String → Result IngestError (Unit {0})
validate_task_name alphanumeric task =
    if is_task_name alphanumeric task
    then ok tt
    else err (
        schedule (
          append "Il nome «" (
            append task
              "» non va bene per una pianificazione: usa lettere, cifre, spazio, trattino, punto o trattino basso (massimo 64 caratteri).")))

abbrev pub is_ascii_alphabetic : ℕ → Bool
is_ascii_alphabetic c = (leb b'A' c && leb c b'Z') || (leb b'a' c && leb c b'z')

-- A drive with a separator, or two backslashes.
abbrev pub is_absolute_text : List ℕ → Bool
is_absolute_text (c ∷ d ∷ e ∷ t) =
    (is_ascii_alphabetic c && d == b':' && is_separator e) || (c == 92 && d == 92)
is_absolute_text (c ∷ d ∷ []) = c == 92 && d == 92
is_absolute_text _ = false

unfoldable pub is_absolute_windows_path : String → Bool
is_absolute_windows_path path = is_absolute_text (codes path)

abbrev pub level_refusal : SafetyLevel → String → SafetyLevel → IngestError
level_refusal level what needed = schedule (
    append "Il livello di sicurezza «"
      (append (name level) (append what (append (name needed) "»."))))

abbrev pub purges : String → IngestError
purges job = schedule (
    append "Il job «" (
      append job
        "» fa un mirror o elimina vecchie generazioni: una pianificazione parte senza nessuno davanti e la console non avvia mai una pulizia non presidiata. Si pianifica soltanto dalla riga di comando, con una scelta esplicita."))

abbrev pub is_relative : String → String → IngestError
is_relative job path = schedule (
    append "Il job «" (
      append job (
        append "» usa il percorso relativo «" (
          append path
            "»: Windows avvia una pianificazione da una cartella di sistema, quindi quel percorso punterebbe altrove. Usa percorsi completi."))))

unfoldable pub check_scheduled : JobDraft → Result IngestError (Unit {0})
check_scheduled draft =
    refuse_if (draft.mirror || is_some draft.keep_generations) (purges draft.name)
    >> refuse_if (not (is_absolute_windows_path draft.source)) (is_relative draft.name draft.source)
    >> refuse_if (not (is_absolute_windows_path draft.dest)) (is_relative draft.name draft.dest)

unfoldable pub check_all_scheduled : List JobDraft → Result IngestError (Unit {0})
check_all_scheduled [] = ok tt
check_all_scheduled (draft ∷ drafts) = check_scheduled draft >> check_all_scheduled drafts

unfoldable pub install_arguments :
    Outside → SafetyLevel → String → String → Result IngestError (List String)
install_arguments outside level spec task =
    refuse_if (not (can_prepare_schedules level))
      (level_refusal level "» non permette di preparare pianificazioni: servono almeno «" standard)
    >> (parse_schedule_spec spec >>= λ _.
        validate_task_name outside.is_alphanumeric task
        >> (outside.loaded >>= λ config.
            check_all_scheduled (read_drafts config)
            >> (outside.absolute >>= λ path.
                ok (
                  "--config" ∷ path ∷ "--install-schedule" ∷ spec ∷ "--schedule-name" ∷ task
                  ∷ []))))

unfoldable pub removal_arguments : Outside → SafetyLevel → String → Result IngestError (List String)
removal_arguments outside level task =
    refuse_if (not (can_prepare_schedules level))
      (level_refusal level "» non permette di togliere pianificazioni: servono almeno «" standard)
    >> (validate_task_name outside.is_alphanumeric task >> ok ("--uninstall-schedule" ∷ task ∷ []))

-- Switching off is allowed at every level.
unfoldable pub check_set_enabled :
    Outside → SafetyLevel → String → Bool → Result IngestError (Unit {0})
check_set_enabled outside level task enabled =
    refuse_if (enabled && not (can_prepare_schedules level))
      (level_refusal level "» non permette di riattivare pianificazioni: servono almeno «" standard)
    >> validate_task_name outside.is_alphanumeric task

abbrev pub change_enabled_arguments : String → Bool → List String
change_enabled_arguments task enabled =
    "/Change" ∷ "/TN" ∷ task ∷ (if enabled then "/ENABLE" else "/DISABLE") ∷ []
