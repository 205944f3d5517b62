-- ===== src/GenerationRun.antt =====
-- One run of a generation backup: `execute_generation_backup` and `prune_old_generations` of
-- crates/rustcopy-cli/src/main.rs, over the manifest and the generation folders of a destination. A
-- folder is the list of the files that were copied into it. The time of such an entry is the source
-- file's when it was copied; restoring does not read it. What the disk and the person answer (each
-- read, write and removal that can fail, the length of a source file when it is copied, the link
-- that was found, what the verification says, whether the purge was allowed) is part of the request.
-- A copy that fails may also leave a part of the file it failed at, and an append that fails a part
-- of its line: neither is in the state. Reports, hooks and progress are left out.
pub mod Made
pub mod Pruned
pub mod Removal
pub mod Keeps
pub mod Live
pub mod Cut
pub mod Purging
pub mod Sound
use rustcopy.Base.{
  ℕ, String, Bool, true, false, not, ◌||◌, or_else, Option, none, some, List, [], ◌∷◌, length, take,
  keep_if, Result, ok, err, ◌==◌, string_eq, if◌then◌else◌, map,
}
use rustcopy.Errors.{IngestError, retention_purge_aborted, destination_has_link}
use rustcopy.Generations.{
  BackupType, full, incremental, differential, ScannedFile, Generation, GenerationManifest,
  entry_of, push, latest, latest_full, index_to_prune, retain_generations, changed_since,
  to_generation_files, GenerationVerdict, verdict,
}

pub record Backup : Type 0 where
  pub manifest : GenerationManifest
  pub folders : List (String × List ScannedFile)

abbrev pub folder_in : List (String × List ScannedFile) → String → List ScannedFile
folder_in [] id = []
folder_in ((i, files) ∷ rest) id = if i == id then files else folder_in rest id

-- What the person and the disk answer to a purge.
pub record Purge : Type 0 where
  pub index_fails : Option IngestError
  pub allowed : Bool
  -- the order in which the set of ids is walked
  pub hash_order : List String → List String
  -- a removal that fails, and what it leaves of the folder
  pub remove_fails : String → Option (IngestError × List ScannedFile)
  pub reload_fails : Option IngestError
  pub save_fails : Option IngestError

pub record Run : Type 0 where
  pub backup_type : BackupType
  pub id : String
  pub created_at : String
  pub inventory : List ScannedFile
  pub dry_run : Bool
  pub reference_fails : Option IngestError
  pub create_fails : Option IngestError
  -- the length that a source file has when it is copied
  pub length_now : ScannedFile → ℕ
  pub copy_fails_after : Option ℕ
  pub link_found : Option String
  pub integrity : Option (Result IngestError Bool)
  pub append_fails : Option IngestError
  pub keep_generations : Option ℕ
  pub purge : Purge

-- A run stops with one of the errors of main.rs's own, with an error of the purge that has begun,
-- or with another of the program's.
pub data RunError : Type 0 where
  no_prior_full : RunError
  no_prior : RunError
  not_pruned : IngestError → RunError
  ingest : IngestError → RunError

-- The generation that the run is compared with; a full one needs none.
pub data Reference : Type 0 where
  whole : Reference
  against : Generation → Reference

abbrev pub found_or : Option Generation → RunError → Result RunError Reference
found_or none e = err e
found_or (some g) e = ok (against g)

unfoldable pub reference_for : GenerationManifest → BackupType → Result RunError Reference
reference_for m full = ok whole
reference_for m incremental = found_or (latest m) no_prior
reference_for m differential = found_or (latest_full m) no_prior_full

-- A full generation reads nothing.
abbrev pub read_reference :
    Option IngestError → GenerationManifest → BackupType → Result RunError Reference
read_reference none m t = reference_for m t
read_reference (some e) m full = reference_for m full
read_reference (some e) m incremental = err (ingest e)
read_reference (some e) m differential = err (ingest e)

abbrev pub files_to_copy : Reference → List ScannedFile → List ScannedFile
files_to_copy whole inventory = inventory
files_to_copy (against g) inventory = changed_since inventory g.files

-- `copy_one` copies what the source file is by then.
abbrev pub copy_one : (ScannedFile → ℕ) → ScannedFile → ScannedFile
copy_one length_now f = record f { size_bytes = length_now f }

-- `copy_selected` copies in order and stops at the first file that fails.
abbrev pub landed : (ScannedFile → ℕ) → Option ℕ → List ScannedFile → List ScannedFile
landed length_now none files = map (copy_one length_now) files
landed length_now (some n) files = map (copy_one length_now) (take n files)

abbrev pub failed : Option ℕ → Bool
failed none = false
failed (some n) = true

-- The verification runs only after a copy that did not fail.
abbrev pub checked : Option ℕ → Option (Result IngestError Bool) → Result IngestError (Option Bool)
checked none none = ok none
checked none (some (ok passed)) = ok (some passed)
checked none (some (err e)) = err e
checked (some n) integrity = ok none

-- An error ends the run with the backup as it is.
abbrev pub unless_failed :
    Option IngestError → Backup → Result RunError ℕ × Backup → Result RunError ℕ × Backup
unless_failed none b next = next
unless_failed (some e) b next = (err (ingest e), b)

abbrev pub has_folder : List (String × List ScannedFile) → String → Bool
has_folder [] id = false
has_folder ((i, files) ∷ rest) id = i == id || has_folder rest id

abbrev pub without_folder :
    String → List (String × List ScannedFile) → List (String × List ScannedFile)
without_folder id fs = keep_if (λ (i, _). not (i == id)) fs

-- The folders that exist are removed in order, up to the first removal that fails.
unfoldable pub remove_folders :
    (String → Option (IngestError × List ScannedFile))
    → List String
    → List (String × List ScannedFile)
    → Option IngestError × List (String × List ScannedFile)
remove_folders fails [] fs = (none, fs)
remove_folders fails (id ∷ ids) fs = elim (has_folder fs id) [
  | false ↦ remove_folders fails ids fs
  | true ↦ elim (fails id) [
    | none ↦ remove_folders fails ids (without_folder id fs)
    | some (e, left) ↦ (some e, (id, left) ∷ without_folder id fs)
  ]
]

abbrev pub rewrite_manifest : Option IngestError → Backup → List String → Result RunError ℕ × Backup
rewrite_manifest none b ids = (ok 0, record b { manifest = retain_generations b.manifest ids })
rewrite_manifest (some e) b ids = (err (not_pruned e), b)

-- The manifest is read again and saved only when every folder is gone.
abbrev pub after_removal :
    Purge
    → Backup
    → List String
    → Option IngestError × List (String × List ScannedFile)
    → Result RunError ℕ × Backup
after_removal p b ids (some e, fs) = (err (not_pruned e), record b { folders = fs })
after_removal p b ids (none, fs) =
    rewrite_manifest (or_else p.reload_fails p.save_fails) (record b { folders = fs }) ids

-- The ids are removed from the disk and then from the manifest, if there are any and it is allowed.
unfoldable pub remove_generations : Purge → Backup → List String → Result RunError ℕ × Backup
remove_generations p b [] = (ok 0, b)
remove_generations p b (id ∷ ids) =
    if p.allowed
    then after_removal p b (id ∷ ids)
        (remove_folders p.remove_fails (p.hash_order (id ∷ ids)) b.folders)
    else (err (ingest (retention_purge_aborted (length (id ∷ ids)))), b)

abbrev pub prune_ids : Backup → ℕ → List String
prune_ids b keep_cycles =
    index_to_prune (record { entries = map entry_of b.manifest.generations }) keep_cycles

unfoldable pub prune_old_generations : Purge → Backup → ℕ → Result RunError ℕ × Backup
prune_old_generations p b keep_cycles =
    unless_failed p.index_fails b (remove_generations p b (prune_ids b keep_cycles))

abbrev pub generation_of : Run → List ScannedFile → Generation
generation_of r copied = record {
  id = r.id;
  backup_type = r.backup_type;
  created_at = r.created_at;
  files_copied = length copied;
  files = to_generation_files r.inventory;
}

-- The end of a run whose generation is recorded: the exit code, or what pruning says.
abbrev pub finish_prune : Option ℕ → Purge → Backup → Result RunError ℕ × Backup
finish_prune none p b = (ok 0, b)
finish_prune (some keep_cycles) p b = prune_old_generations p b keep_cycles

-- The manifest gets the generation only when the verdict says so.
abbrev pub after_copy :
    Backup → Run → List ScannedFile → GenerationVerdict → Result RunError ℕ × Backup
after_copy b r files v =
    if v.record_it
    then unless_failed r.append_fails b (
        finish_prune r.keep_generations r.purge
          (record b { manifest = push b.manifest (generation_of r files) }))
    else (ok v.exit_code, b)

abbrev pub after_check :
    Backup → Run → List ScannedFile → Result IngestError (Option Bool) → Result RunError ℕ × Backup
after_check b r files (err e) = (err (ingest e), b)
after_check b r files (ok integrity) =
    after_copy b r files (verdict (failed r.copy_fails_after) integrity)

-- `ensure_dest_has_no_links` behind the copy, if it was asked for and found one, ends the run.
abbrev pub after_links :
    Option String → Backup → Run → List ScannedFile → Result RunError ℕ × Backup
after_links (some path) b r files = (err (ingest (destination_has_link path)), b)
after_links none b r files = after_check b r files (checked r.copy_fails_after r.integrity)

abbrev pub with_folder : Backup → Run → List ScannedFile → Backup
with_folder b r files = record b {
  folders = (r.id, landed r.length_now r.copy_fails_after files) ∷ b.folders;
}

abbrev pub copy_and_record : Backup → Run → Reference → Result RunError ℕ × Backup
copy_and_record b r reference =
    let files = files_to_copy reference r.inventory in
    if r.dry_run
    then (ok (verdict false none).exit_code, b)
    else unless_failed r.create_fails b (after_links r.link_found (with_folder b r files) r files)

abbrev pub run_with : Backup → Run → Result RunError Reference → Result RunError ℕ × Backup
run_with b r (err e) = (err e, b)
run_with b r (ok reference) = copy_and_record b r reference

unfoldable pub execute : Backup → Run → Result RunError ℕ × Backup
execute b r = run_with b r (read_reference r.reference_fails b.manifest r.backup_type)
