-- ===== src/JobEditor/Pinned.antt =====
-- How a draft's fields become a job's own settings: the pins of `apply_draft_with` of
-- crates/rustcopy-core/src/job_editor.rs.
use rustcopy.Base.{
  is_some, unwrap_or, String, Bool, false, not, ◌||◌, Option, none, some, List, [], ◌∷◌, Eq, ◌==◌,
  nat_eq, string_eq, list_eq, bool_eq, option_eq, if◌then◌else◌,
}
use rustcopy.Generations.{backup_type_eq}
use rustcopy.Checkpoint.{hash_algorithm_eq}
use rustcopy.Strings.{trim, is_empty_string}
use rustcopy.Config.{JobConfig}
use rustcopy.JobEditor.Draft.{JobDraft}

-- A Boolean is written when the job has one of its own, or when it differs from the inherited one.
unfoldable pub pin_bool : Option Bool → Option Bool → Bool → Option Bool
pin_bool own inherited value =
    if is_some own || not (value == unwrap_or inherited false) then some value else none

-- The same for the optional fields.
unfoldable pub pin {ℓ} : {A : Type ℓ} ⦃e : Eq A⦄ → Option A → Option A → Option A → Option A
pin own inherited value = if is_some own || not (value == inherited) then value else none

abbrev pub list_of : List String → Option (List String)
list_of [] = none
list_of (item ∷ items) = some (item ∷ items)

-- An empty box is "not set", not "set to the empty path".
unfoldable pub required_path : String → Option String
required_path value = if is_empty_string (trim value) then none else some value

unfoldable pub path_of : Option String → Option String
path_of none = none
path_of (some text) = required_path text

-- The job's new settings, with what its two commands become.
unfoldable pub pinned : JobConfig → JobConfig → JobDraft → Option String → Option String → JobConfig
pinned base inherited draft pre post = record {
  name = some draft.name;
  source = pin base.source inherited.source (required_path draft.source);
  dest = pin base.dest inherited.dest (required_path draft.dest);
  pattern = pin base.pattern inherited.pattern draft.pattern;
  threads = pin base.threads inherited.threads draft.threads;
  retries = pin base.retries inherited.retries draft.retries;
  retry_wait_seconds =
      pin base.retry_wait_seconds inherited.retry_wait_seconds draft.retry_wait_seconds;
  verify_integrity =
      pin_bool base.verify_integrity inherited.verify_integrity draft.verify_integrity;
  fast_verify = pin_bool base.fast_verify inherited.fast_verify draft.fast_verify;
  ignore_transient_missing =
      pin_bool base.ignore_transient_missing inherited.ignore_transient_missing
        draft.ignore_transient_missing;
  exclude_junctions =
      pin_bool base.exclude_junctions inherited.exclude_junctions draft.exclude_junctions;
  refuse_dest_links = base.refuse_dest_links;
  html_report_path =
      pin base.html_report_path inherited.html_report_path (path_of draft.html_report_path);
  hash_algo = pin base.hash_algo inherited.hash_algo draft.hash_algo;
  compare_baseline =
      pin_bool base.compare_baseline inherited.compare_baseline draft.compare_baseline;
  report_path = pin base.report_path inherited.report_path (path_of draft.report_path);
  log_path = pin base.log_path inherited.log_path (path_of draft.log_path);
  dry_run = pin_bool base.dry_run inherited.dry_run draft.dry_run;
  backup_type = pin base.backup_type inherited.backup_type draft.backup_type;
  keep_generations = pin base.keep_generations inherited.keep_generations draft.keep_generations;
  mirror = pin_bool base.mirror inherited.mirror draft.mirror;
  exclude_files = pin base.exclude_files inherited.exclude_files (list_of draft.exclude_files);
  exclude_dirs = pin base.exclude_dirs inherited.exclude_dirs (list_of draft.exclude_dirs);
  min_age_days = pin base.min_age_days inherited.min_age_days draft.min_age_days;
  max_age_days = pin base.max_age_days inherited.max_age_days draft.max_age_days;
  bandwidth_limit_mbps =
      pin base.bandwidth_limit_mbps inherited.bandwidth_limit_mbps draft.bandwidth_limit_mbps;
  no_prescan = pin_bool base.no_prescan inherited.no_prescan draft.no_prescan;
  skip_space_check = base.skip_space_check;
  space_safety_margin_percent = base.space_safety_margin_percent;
  long_paths = pin_bool base.long_paths inherited.long_paths draft.long_paths;
  preserve_timestamps =
      pin_bool base.preserve_timestamps inherited.preserve_timestamps draft.preserve_timestamps;
  preserve_acl = pin_bool base.preserve_acl inherited.preserve_acl draft.preserve_acl;
  webhook_url = base.webhook_url;
  pre_command = pre;
  post_command = post;
  encrypt_aes256 = pin base.encrypt_aes256 inherited.encrypt_aes256 draft.encrypt_aes256;
}
