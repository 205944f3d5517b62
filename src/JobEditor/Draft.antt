-- ===== src/JobEditor/Draft.antt =====
-- What the job editor may write of a job, and what it is filled with: `JobDraft` and `draft_from` of
-- crates/rustcopy-core/src/job_editor.rs.
use rustcopy.Base.{unwrap_or, ℕ, String, Bool, false, Option, List, []}
use rustcopy.Generations.{BackupType}
use rustcopy.Checkpoint.{HashAlgorithm}
use rustcopy.Config.{JobConfig}

pub record JobDraft : Type 0 where
  pub name : String
  pub source : String
  pub dest : String
  pub pattern : Option String
  pub threads : Option ℕ
  pub retries : Option ℕ
  pub retry_wait_seconds : Option ℕ
  pub verify_integrity : Bool
  pub fast_verify : Bool
  pub ignore_transient_missing : Bool
  pub exclude_junctions : Bool
  pub compare_baseline : Bool
  pub dry_run : Bool
  pub long_paths : Bool
  pub preserve_timestamps : Bool
  pub preserve_acl : Bool
  pub no_prescan : Bool
  pub hash_algo : Option HashAlgorithm
  pub backup_type : Option BackupType
  pub exclude_files : List String
  pub exclude_dirs : List String
  pub min_age_days : Option ℕ
  pub max_age_days : Option ℕ
  pub bandwidth_limit_mbps : Option ℕ
  pub report_path : Option String
  pub log_path : Option String
  pub html_report_path : Option String
  pub mirror : Bool
  pub keep_generations : Option ℕ
  pub encrypt_aes256 : Option String
  pub pre_command : Option String
  pub post_command : Option String

unfoldable pub draft_from : JobConfig → String → JobDraft
draft_from job name = record {
  name = name;
  source = unwrap_or job.source "";
  dest = unwrap_or job.dest "";
  pattern = job.pattern;
  threads = job.threads;
  retries = job.retries;
  retry_wait_seconds = job.retry_wait_seconds;
  verify_integrity = unwrap_or job.verify_integrity false;
  fast_verify = unwrap_or job.fast_verify false;
  ignore_transient_missing = unwrap_or job.ignore_transient_missing false;
  exclude_junctions = unwrap_or job.exclude_junctions false;
  compare_baseline = unwrap_or job.compare_baseline false;
  dry_run = unwrap_or job.dry_run false;
  long_paths = unwrap_or job.long_paths false;
  preserve_timestamps = unwrap_or job.preserve_timestamps false;
  preserve_acl = unwrap_or job.preserve_acl false;
  no_prescan = unwrap_or job.no_prescan false;
  hash_algo = job.hash_algo;
  backup_type = job.backup_type;
  exclude_files = unwrap_or job.exclude_files [];
  exclude_dirs = unwrap_or job.exclude_dirs [];
  min_age_days = job.min_age_days;
  max_age_days = job.max_age_days;
  bandwidth_limit_mbps = job.bandwidth_limit_mbps;
  report_path = job.report_path;
  log_path = job.log_path;
  html_report_path = job.html_report_path;
  mirror = unwrap_or job.mirror false;
  keep_generations = job.keep_generations;
  encrypt_aes256 = job.encrypt_aes256;
  pre_command = job.pre_command;
  post_command = job.post_command;
}
