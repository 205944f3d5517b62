-- ===== src/JobEditor/InEffect.antt =====
-- What a job does after an accepted draft of job_editor.rs, as the form would show it again.
use rustcopy.Base.{
  or_else, unwrap_or, ◌≡◌, ◌⊎◌, inl, inr, refl, String, true, false, Option, none, some, [],
  string_eq, nat_eq, list_eq, option_eq, ok, arith, >>=-ok, Bool-cases, eq_of_test, ◌==◌,
}
use rustcopy.Strings.{trim}
use rustcopy.Generations.{backup_type_eq}
use rustcopy.Checkpoint.{hash_algorithm_eq}
use rustcopy.Config.{JobConfig, merged_over}
use rustcopy.JobEditor.{
  CommandPermit, refuse_if, is_empty_string, trimmed, wanted_command, has_control, changed_command,
  resolve_command, base_of, apply_draft_with,
}
use rustcopy.JobEditor.Draft.{JobDraft, draft_from}
use rustcopy.JobEditor.Pinned.{list_of, required_path, path_of, pinned}
use rustcopy.JobEditor.Effective.{pin_bool_lem, pin_lem}
use rustcopy.JobEditor.Narrowing.{accepted}

-- The draft with its empty fields filled from the file's top-level values, and two given commands.
pub filled : JobConfig → JobDraft → Option String → Option String → JobDraft
filled inherited draft pre post = record {
  name = draft.name;
  source = unwrap_or (or_else (required_path draft.source) inherited.source) "";
  dest = unwrap_or (or_else (required_path draft.dest) inherited.dest) "";
  pattern = or_else draft.pattern inherited.pattern;
  threads = or_else draft.threads inherited.threads;
  retries = or_else draft.retries inherited.retries;
  retry_wait_seconds = or_else draft.retry_wait_seconds inherited.retry_wait_seconds;
  verify_integrity = draft.verify_integrity;
  fast_verify = draft.fast_verify;
  ignore_transient_missing = draft.ignore_transient_missing;
  exclude_junctions = draft.exclude_junctions;
  compare_baseline = draft.compare_baseline;
  dry_run = draft.dry_run;
  long_paths = draft.long_paths;
  preserve_timestamps = draft.preserve_timestamps;
  preserve_acl = draft.preserve_acl;
  no_prescan = draft.no_prescan;
  hash_algo = or_else draft.hash_algo inherited.hash_algo;
  backup_type = or_else draft.backup_type inherited.backup_type;
  exclude_files = unwrap_or (or_else (list_of draft.exclude_files) inherited.exclude_files) [];
  exclude_dirs = unwrap_or (or_else (list_of draft.exclude_dirs) inherited.exclude_dirs) [];
  min_age_days = or_else draft.min_age_days inherited.min_age_days;
  max_age_days = or_else draft.max_age_days inherited.max_age_days;
  bandwidth_limit_mbps = or_else draft.bandwidth_limit_mbps inherited.bandwidth_limit_mbps;
  report_path = or_else (path_of draft.report_path) inherited.report_path;
  log_path = or_else (path_of draft.log_path) inherited.log_path;
  html_report_path = or_else (path_of draft.html_report_path) inherited.html_report_path;
  mirror = draft.mirror;
  keep_generations = or_else draft.keep_generations inherited.keep_generations;
  encrypt_aes256 = or_else draft.encrypt_aes256 inherited.encrypt_aes256;
  pre_command = or_else pre inherited.pre_command;
  post_command = or_else post inherited.post_command;
}

pinned-filled :
    (base inherited : JobConfig) (draft : JobDraft) (pre post : Option String)
    → draft_from (merged_over (pinned base inherited draft pre post) inherited) draft.name
      ≡ filled inherited draft pre post
unfolding filled draft_from merged_over pinned
pinned-filled base inherited draft pre post = λ j. record {
  name = draft.name;
  source = unwrap_or (pin_lem base.source inherited.source (required_path draft.source) j) "";
  dest = unwrap_or (pin_lem base.dest inherited.dest (required_path draft.dest) j) "";
  pattern = pin_lem base.pattern inherited.pattern draft.pattern j;
  threads = pin_lem base.threads inherited.threads draft.threads j;
  retries = pin_lem base.retries inherited.retries draft.retries j;
  retry_wait_seconds =
      pin_lem base.retry_wait_seconds inherited.retry_wait_seconds draft.retry_wait_seconds j;
  verify_integrity =
      pin_bool_lem base.verify_integrity inherited.verify_integrity draft.verify_integrity j;
  fast_verify = pin_bool_lem base.fast_verify inherited.fast_verify draft.fast_verify j;
  ignore_transient_missing =
      pin_bool_lem base.ignore_transient_missing inherited.ignore_transient_missing
        draft.ignore_transient_missing j;
  exclude_junctions =
      pin_bool_lem base.exclude_junctions inherited.exclude_junctions draft.exclude_junctions j;
  compare_baseline =
      pin_bool_lem base.compare_baseline inherited.compare_baseline draft.compare_baseline j;
  dry_run = pin_bool_lem base.dry_run inherited.dry_run draft.dry_run j;
  long_paths = pin_bool_lem base.long_paths inherited.long_paths draft.long_paths j;
  preserve_timestamps =
      pin_bool_lem base.preserve_timestamps inherited.preserve_timestamps draft.preserve_timestamps
        j;
  preserve_acl = pin_bool_lem base.preserve_acl inherited.preserve_acl draft.preserve_acl j;
  no_prescan = pin_bool_lem base.no_prescan inherited.no_prescan draft.no_prescan j;
  hash_algo = pin_lem base.hash_algo inherited.hash_algo draft.hash_algo j;
  backup_type = pin_lem base.backup_type inherited.backup_type draft.backup_type j;
  exclude_files =
      unwrap_or (pin_lem base.exclude_files inherited.exclude_files (list_of draft.exclude_files) j)
        [];
  exclude_dirs =
      unwrap_or (pin_lem base.exclude_dirs inherited.exclude_dirs (list_of draft.exclude_dirs) j)
        [];
  min_age_days = pin_lem base.min_age_days inherited.min_age_days draft.min_age_days j;
  max_age_days = pin_lem base.max_age_days inherited.max_age_days draft.max_age_days j;
  bandwidth_limit_mbps =
      pin_lem base.bandwidth_limit_mbps inherited.bandwidth_limit_mbps draft.bandwidth_limit_mbps j;
  report_path = pin_lem base.report_path inherited.report_path (path_of draft.report_path) j;
  log_path = pin_lem base.log_path inherited.log_path (path_of draft.log_path) j;
  html_report_path =
      pin_lem base.html_report_path inherited.html_report_path (path_of draft.html_report_path) j;
  mirror = pin_bool_lem base.mirror inherited.mirror draft.mirror j;
  keep_generations =
      pin_lem base.keep_generations inherited.keep_generations draft.keep_generations j;
  encrypt_aes256 = pin_lem base.encrypt_aes256 inherited.encrypt_aes256 draft.encrypt_aes256 j;
  pre_command = or_else pre inherited.pre_command;
  post_command = or_else post inherited.post_command;
}

-- The command that a box of the form asks for: its text without the blanks around it, or none.
abbrev pub Says : Option String → Option String → Type 0
Says none wanted = wanted ≡ none
Says (some text) wanted =
    ((is_empty_string (trim text) ≡ true) × (wanted ≡ none))
    ⊎ ((is_empty_string (trim text) ≡ false) × (wanted ≡ some (trim text)))

-- The command is the one that runs, but for the blanks around that.
abbrev pub Trims : Option String → Option String → Type 0
Trims none wanted = wanted ≡ none
Trims (some text) wanted = wanted ≡ some (trim text)

-- What is saved as the job's own command: what the box asks for; or, if that is what the job runs
-- already but for the blanks around it, what the job had of its own.
abbrev pub SavedAs : Option String → Option String → Option String → Option String → Type 0
SavedAs own inherited box saved =
    (wanted : Option String) × Says box wanted
    × ((saved ≡ wanted) ⊎ ((saved ≡ own) × Trims (or_else own inherited) wanted))

wanted_command-Says : (box : Option String) → Says box (wanted_command box)
unfolding wanted_command
wanted_command-Says none = refl
wanted_command-Says (some text) = elim (Bool-cases (is_empty_string (trim text))) [
  | inl blank ↦ inl (blank, rw blank refl)
  | inr said ↦ inr (said, rw said refl)
]

Trims-trimmed : (o wanted : Option String) → wanted ≡ trimmed o → Trims o wanted
Trims-trimmed none wanted h = h
Trims-trimmed (some text) wanted h = h

changed_command-saves :
    (which name : String) (own wanted r : Option String) (permit : CommandPermit)
    → changed_command which name own wanted permit ≡ ok r
    → r ≡ wanted
unfolding changed_command
changed_command-saves which name none none r permit h = cc
changed_command-saves which name (some command) none r permit h = ground (arith, h)
changed_command-saves which name own (some text) r permit h = ground (arith, h)

resolve_command-SavedAs :
    (which name : String) (own inherited box r : Option String) (permit : CommandPermit)
    → resolve_command which name own inherited box permit ≡ ok r
    → SavedAs own inherited box r
unfolding resolve_command
resolve_command-SavedAs which name own inherited box r permit h =
    let (_, _, h') = >>=-ok (refuse_if (has_control (wanted_command box)) _) _ h in
    elim (Bool-cases (wanted_command box == trimmed (or_else own inherited))) [
      | inl same ↦
          let kept : ok own ≡ ok r = rw same at h' in
          let unchanged : r ≡ own = cc kept in
          (
            wanted_command box,
            wanted_command-Says box,
            inr (
              unchanged,
              Trims-trimmed (or_else own inherited) (wanted_command box)
                  (eq_of_test (wanted_command box) (trimmed (or_else own inherited)) same),
            ),
          )
      | inr differs ↦ (
        wanted_command box,
        wanted_command-Says box,
        inl (changed_command-saves which name own (wanted_command box) r permit (rw differs at h')),
      )
    ]

-- After an accepted draft the job does what the form says: every switch is as the form has it, and
-- every other setting is the form's or, where the form is empty, the file's top-level value. The
-- job's own commands are what the form's boxes ask for, or stay as they were if that is what the job
-- runs already.
pub draft_from-apply_draft_with :
    (own : Option JobConfig) (inherited : JobConfig) (draft : JobDraft) (permit : CommandPermit)
    (job : JobConfig)
    → apply_draft_with own inherited draft permit ≡ ok job
    → (draft_from (merged_over job inherited) draft.name
        ≡ filled inherited draft job.pre_command job.post_command)
      × SavedAs (base_of own).pre_command inherited.pre_command draft.pre_command job.pre_command
      × SavedAs
          (base_of own).post_command
          inherited.post_command
          draft.post_command
          job.post_command
unfolding pinned
draft_from-apply_draft_with own inherited draft permit job h =
    let a = accepted own inherited draft permit job h in
    rw a.result (
      pinned-filled (base_of own) inherited draft a.pre a.post,
      resolve_command-SavedAs "pre_command" draft.name (base_of own).pre_command
          inherited.pre_command draft.pre_command a.pre permit a.pre_resolved,
      resolve_command-SavedAs "post_command" draft.name (base_of own).post_command
          inherited.post_command draft.post_command a.post permit a.post_resolved,
    )
