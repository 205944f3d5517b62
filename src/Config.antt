-- ===== src/Config.antt =====
-- The settings of a job and of a configuration file: crates/rustcopy-core/src/config.rs. Reading the
-- TOML text is the work of a library; paths are texts.
use rustcopy.Base.{or_else, ℕ, String, Bool, Option, none, List}
use rustcopy.Generations.{BackupType}
use rustcopy.Checkpoint.{HashAlgorithm}

pub record JobConfig : Type 0 where
  pub name : Option String
  pub source : Option String
  pub dest : Option String
  pub pattern : Option String
  pub threads : Option ℕ
  pub retries : Option ℕ
  pub retry_wait_seconds : Option ℕ
  pub verify_integrity : Option Bool
  pub fast_verify : Option Bool
  pub ignore_transient_missing : Option Bool
  pub exclude_junctions : Option Bool
  pub refuse_dest_links : Option Bool
  pub html_report_path : Option String
  pub hash_algo : Option HashAlgorithm
  pub compare_baseline : Option Bool
  pub report_path : Option String
  pub log_path : Option String
  pub dry_run : Option Bool
  pub backup_type : Option BackupType
  pub keep_generations : Option ℕ
  pub mirror : Option Bool
  pub exclude_files : Option (List String)
  pub exclude_dirs : Option (List String)
  pub min_age_days : Option ℕ
  pub max_age_days : Option ℕ
  pub bandwidth_limit_mbps : Option ℕ
  pub no_prescan : Option Bool
  pub skip_space_check : Option Bool
  pub space_safety_margin_percent : Option ℕ
  pub long_paths : Option Bool
  pub preserve_timestamps : Option Bool
  pub preserve_acl : Option Bool
  pub webhook_url : Option String
  pub pre_command : Option String
  pub post_command : Option String
  pub encrypt_aes256 : Option String

-- `JobConfig::default()`
abbrev pub no_settings : JobConfig
no_settings = record {
  name = none;
  source = none;
  dest = none;
  pattern = none;
  threads = none;
  retries = none;
  retry_wait_seconds = none;
  verify_integrity = none;
  fast_verify = none;
  ignore_transient_missing = none;
  exclude_junctions = none;
  refuse_dest_links = none;
  html_report_path = none;
  hash_algo = none;
  compare_baseline = none;
  report_path = none;
  log_path = none;
  dry_run = none;
  backup_type = none;
  keep_generations = none;
  mirror = none;
  exclude_files = none;
  exclude_dirs = none;
  min_age_days = none;
  max_age_days = none;
  bandwidth_limit_mbps = none;
  no_prescan = none;
  skip_space_check = none;
  space_safety_margin_percent = none;
  long_paths = none;
  preserve_timestamps = none;
  preserve_acl = none;
  webhook_url = none;
  pre_command = none;
  post_command = none;
  encrypt_aes256 = none;
}

-- A job's settings over the file's; the name is the job's own.
unfoldable pub merged_over : JobConfig → JobConfig → JobConfig
merged_over job base = record {
  name = job.name;
  source = or_else job.source base.source;
  dest = or_else job.dest base.dest;
  pattern = or_else job.pattern base.pattern;
  threads = or_else job.threads base.threads;
  retries = or_else job.retries base.retries;
  retry_wait_seconds = or_else job.retry_wait_seconds base.retry_wait_seconds;
  verify_integrity = or_else job.verify_integrity base.verify_integrity;
  fast_verify = or_else job.fast_verify base.fast_verify;
  ignore_transient_missing = or_else job.ignore_transient_missing base.ignore_transient_missing;
  exclude_junctions = or_else job.exclude_junctions base.exclude_junctions;
  refuse_dest_links = or_else job.refuse_dest_links base.refuse_dest_links;
  html_report_path = or_else job.html_report_path base.html_report_path;
  hash_algo = or_else job.hash_algo base.hash_algo;
  compare_baseline = or_else job.compare_baseline base.compare_baseline;
  report_path = or_else job.report_path base.report_path;
  log_path = or_else job.log_path base.log_path;
  dry_run = or_else job.dry_run base.dry_run;
  backup_type = or_else job.backup_type base.backup_type;
  keep_generations = or_else job.keep_generations base.keep_generations;
  mirror = or_else job.mirror base.mirror;
  exclude_files = or_else job.exclude_files base.exclude_files;
  exclude_dirs = or_else job.exclude_dirs base.exclude_dirs;
  min_age_days = or_else job.min_age_days base.min_age_days;
  max_age_days = or_else job.max_age_days base.max_age_days;
  bandwidth_limit_mbps = or_else job.bandwidth_limit_mbps base.bandwidth_limit_mbps;
  no_prescan = or_else job.no_prescan base.no_prescan;
  skip_space_check = or_else job.skip_space_check base.skip_space_check;
  space_safety_margin_percent =
      or_else job.space_safety_margin_percent base.space_safety_margin_percent;
  long_paths = or_else job.long_paths base.long_paths;
  preserve_timestamps = or_else job.preserve_timestamps base.preserve_timestamps;
  preserve_acl = or_else job.preserve_acl base.preserve_acl;
  webhook_url = or_else job.webhook_url base.webhook_url;
  pre_command = or_else job.pre_command base.pre_command;
  post_command = or_else job.post_command base.post_command;
  encrypt_aes256 = or_else job.encrypt_aes256 base.encrypt_aes256;
}

pub record IngestConfig : Type 0 where
  pub defaults : JobConfig
  pub jobs : Option (List JobConfig)
