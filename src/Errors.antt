-- ===== src/Errors.antt =====
-- crates/rustcopy-core/src/errors.rs: every reason a run stops for, and which of them are worth
-- another attempt. A payload that is a foreign error is reduced to what the code reads of it.
use rustcopy.Base.{ℕ, String, Bool, true, false, not, ◌&&◌, Option, ℤ, Eq, ◌==◌}
use rustcopy.ExitCode.{Description, status_of, should_retry}

-- The `std::io::ErrorKind`s that the code tells apart.
pub data ErrorKind : Type 0 where
  not_found permission_denied unsupported invalid_data other_kind : ErrorKind

pub ErrorKind-discrete : Discrete ErrorKind
ErrorKind-discrete = hlevel

instance unfoldable pub error_kind_eq : Eq ErrorKind
unfolding ErrorKind-discrete
error_kind_eq = record { dec = ErrorKind-discrete }

pub data IngestError : Type 0 where
  invalid_threads : ℕ → IngestError
  source_or_dest_missing_from_config : IngestError
  backup_type_and_mirror_conflict : IngestError
  keep_generations_without_backup_type : IngestError
  backup_type_and_encryption_conflict : IngestError
  force_full_without_backup_type : IngestError
  invalid_job_name : String → String → IngestError
  editor_cannot_enable_mirror : String → IngestError
  editor_cannot_set_command : String → String → IngestError
  editor_command_not_confirmed : String → String → IngestError
  editor_command_inherited : String → String → IngestError
  editor_command_invalid : String → String → IngestError
  editor_cannot_introduce_retention : String → IngestError
  editor_cannot_lower_retention : String → ℕ → ℕ → IngestError
  editor_cannot_disable_prescan_on_mirror : String → IngestError
  editor_cannot_split_single_job_config : String → IngestError
  cli_binary_not_found : String → IngestError
  shell_drop_config_empty : String → IngestError
  copy_plan_invalid : String → IngestError
  cancel_file_already_exists : String → IngestError
  editor_would_overwrite : String → IngestError
  example_workspace_already_exists : String → IngestError
  source_missing : String → IngestError
  source_not_a_directory : String → IngestError
  dest_not_a_directory : String → IngestError
  source_equals_destination : String → IngestError
  dest_inside_source : String → String → IngestError
  empty_pattern : IngestError
  invalid_pattern : String → IngestError
  robocopy_unavailable : IngestError
  spawn_failed : String → ErrorKind → IngestError
  copy_failed : ℤ → Option Description → ℕ → IngestError
  io : String → ErrorKind → IngestError
  mirror_purge_aborted : ℕ → IngestError
  retention_purge_aborted : ℕ → IngestError
  restore_preview_failed : Option ℤ → String → IngestError
  insufficient_disk_space : ℕ → ℕ → IngestError
  destination_has_link : String → IngestError
  generation_restore : String → IngestError
  crypto : String → IngestError
  encrypt_and_decrypt_conflict : IngestError
  vss : String → IngestError
  pre_command_failed : String → Option ℤ → IngestError
  invalid_schedule_spec : String → IngestError
  schedule : String → IngestError
  service : String → IngestError

-- Only input and output, a failed start and a failed copy can clear on a second attempt.
unfoldable pub is_transient : IngestError → Bool
unfolding should_retry error_kind_eq
is_transient (io path kind) = true
is_transient (spawn_failed program kind) =
    not (kind == not_found) && not (kind == permission_denied)
is_transient (copy_failed code description attempts) = should_retry (status_of code)
is_transient _ = false
