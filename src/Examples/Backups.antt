-- ===== src/Examples/Backups.antt =====
-- Backups, restores and retries at concrete inputs.
use rustcopy.Base.{
  ◌⊎◌, ℕ, zero, suc, ◌<◌, ◌+◌, String, ◌≡◌, refl, true, false, Option, none, some, List, [], ◌∷◌,
  ◌++◌, map, get_elem?, length, arith, All, Result, ok, err, nat_eq, string_eq, list_eq,
}
use rustcopy.Errors.{IngestError, io, ErrorKind}
use rustcopy.Engine.{CopyOutcome, new_outcome, new_policy, run_with_retries}
use rustcopy.Engine.Retries.{run_with_retries_lem, scripted, start, StoppedAt}
use rustcopy.Generations.{
  BackupType, full, incremental, differential, ScannedFile, Generation, GenerationManifest, cycles,
  retain_generations, generations_to_prune, index_to_prune, changed_since, to_generation_files,
  backup_type_eq, verdict, latest, cycle_ranges, cycle_loop,
}
use rustcopy.Generations.Cycles.{concat, IsCycle, AllButFirst}
use rustcopy.Generations.Retention.{type_of, NodupIds, kept_cycles, cycles_lem, retain-prune}
use rustcopy.Generations.Index.{index_of, index_to_prune-index_of}
use rustcopy.Generations.Changes.{NodupPaths, scanned_at, IsNew, IsListed, changed_since_lem}
use rustcopy.GenerationRestore.{Scan, chain_for, assign}
use rustcopy.GenerationRestore.Chain.{shift}
use rustcopy.GenerationRestore.AfterPrune.{chain_for-retain_prune}
use rustcopy.GenerationRestore.Sources.{Sources, from_folder, without_source, assign_lem}
use rustcopy.GenerationRestore.Complete.{Reachable, empty, run, Reachable-IsSound}
use rustcopy.GenerationRun.{
  Backup, Run, Purge, folder_in, execute, reference_for, prune_old_generations, remove_generations,
  remove_folders,
}
use rustcopy.GenerationRun.Keeps.{history, IsFresh}
use rustcopy.GenerationRun.Purging.{IsSound, lost_by}
use rustcopy.GenerationRun.Sound.{IsSteady, IsRequest, execute-IsSound}

abbrev scanned : String → ℕ → ℕ → ScannedFile
scanned name size time = record {
  relative_path = name ∷ [];
  size_bytes = size;
  modified_timestamp = time;
}

abbrev first_scan : List ScannedFile
first_scan = scanned "a" 1 10 ∷ scanned "b" 2 20 ∷ []

abbrev second_scan : List ScannedFile
second_scan = scanned "a" 1 10 ∷ scanned "b" 3 25 ∷ scanned "c" 4 30 ∷ []

abbrev calm : Purge
calm = record {
  index_fails = none;
  allowed = true;
  hash_order = λ ids. ids;
  remove_fails = λ id. none;
  reload_fails = none;
  save_fails = none;
}

abbrev request : BackupType → String → List ScannedFile → Run
request kind id files = record {
  backup_type = kind;
  id = id;
  created_at = "now";
  inventory = files;
  dry_run = false;
  reference_fails = none;
  create_fails = none;
  length_now = λ f. f.size_bytes;
  copy_fails_after = none;
  link_found = none;
  integrity = some (ok true);
  append_fails = none;
  keep_generations = none;
  purge = calm;
}

-- A run whose purge may keep one cycle, and whose manifest cannot be saved behind the removals.
abbrev stopped_request : Run
stopped_request = record (request full "3" first_scan) {
  keep_generations = some 1;
  purge = record calm { save_fails = some (io "d" ErrorKind.other_kind) };
}

abbrev no_backup : Backup
no_backup = record { manifest = record { generations = [] }; folders = [] }

first_scan-NodupPaths : NodupPaths first_scan
unfolding string_eq list_eq
first_scan-NodupPaths = (refl, (refl, tt))

second_scan-NodupPaths : NodupPaths second_scan
unfolding string_eq list_eq
second_scan-NodupPaths = (refl, (refl, (refl, tt)))

abbrev one_run : Backup
one_run = (execute no_backup (request full "1" first_scan)).1

abbrev two_runs : Backup
two_runs = (execute one_run (request incremental "2" second_scan)).1

second-IsFresh : IsFresh "2" (history one_run)
unfolding execute string_eq list_eq nat_eq backup_type_eq reference_for verdict changed_since
    to_generation_files latest
second-IsFresh = refl

request-IsRequest :
    (kind : BackupType) (id : String) (files : List ScannedFile)
    → NodupPaths files
    → IsRequest (request kind id files)
request-IsRequest kind id files h = record {
  nodup = h;
  steady = All-steady files;
  members = λ ids j. refl;
  keeps = λ k e. absurd (none_ne_some k e);
}
  where
    none_ne_some : (k : ℕ) → none ≡ some k → ⊥
    none_ne_some k e = cc

    All-steady : (fs : List ScannedFile) → All (IsSteady (λ f. f.size_bytes)) fs
    All-steady [] = tt
    All-steady (f ∷ fs) = (refl, All-steady fs)

two_runs-Reachable : Reachable two_runs []
unfolding execute reference_for verdict latest
two_runs-Reachable =
    run (request incremental "2" second_scan)
      (run (request full "1" first_scan) empty refl refl
        (request-IsRequest full "1" first_scan first_scan-NodupPaths))
      second-IsFresh refl (request-IsRequest incremental "2" second_scan second_scan-NodupPaths)

stopped_request-IsRequest : IsRequest stopped_request
stopped_request-IsRequest = record {
  nodup = first_scan-NodupPaths;
  steady = (refl, (refl, tt));
  members = λ ids j. refl;
  keeps = λ k e. one_pos k e;
}
  where
    some_injective : (k : ℕ) → some 1 ≡ some k → 1 ≡ k
    some_injective k e = cc

    one_pos : (k : ℕ) → some 1 ≡ some k → 0 < k
    one_pos k e = omega (arith, some_injective k e)

third-IsFresh : IsFresh "3" (history two_runs)
unfolding execute string_eq list_eq nat_eq backup_type_eq reference_for verdict changed_since
    to_generation_files latest
third-IsFresh = refl

abbrev stopped_run : Backup
stopped_run = (execute two_runs stopped_request).1

abbrev lost_then : List String
lost_then = lost_by (execute two_runs stopped_request) (some 1)

abbrev third_generation : Generation
third_generation = record {
  id = "3";
  backup_type = full;
  created_at = "now";
  files_copied = 2;
  files = to_generation_files first_scan;
}

-- Both generations of the older cycle are lost.
lost_two : lost_then ≡ "1" ∷ "2" ∷ []
unfolding execute string_eq list_eq nat_eq backup_type_eq reference_for verdict changed_since
    to_generation_files latest prune_old_generations remove_generations remove_folders
    index_to_prune cycle_ranges cycle_loop
lost_two = refl

execute-IsSound_example :
    IsSound
      (execute two_runs stopped_request).1
      (lost_by (execute two_runs stopped_request) (some 1))
execute-IsSound_example =
    execute-IsSound two_runs stopped_request [] third-IsFresh refl stopped_request-IsRequest
      (Reachable-IsSound two_runs-Reachable)

abbrev generation : String → BackupType → Generation
generation id kind = record {
  id = id;
  backup_type = kind;
  created_at = "then";
  files_copied = 0;
  files = [];
}

abbrev four : GenerationManifest
four = record {
  generations =
      generation "1" full
      ∷ generation "2" incremental
      ∷ generation "3" full
      ∷ generation "4" differential
      ∷ [];
}

four-NodupIds : NodupIds four.generations
unfolding string_eq
four-NodupIds = (refl, (refl, (refl, (refl, tt))))

chain_for-retain_prune_example :
    (pre : List Generation) × (four.generations
      ≡ pre ++ (retain_generations four (generations_to_prune four 1)).generations)
    × ((t : ℕ)
        → chain_for (map type_of four.generations) (length pre + t)
          ≡ shift (length pre) (
              chain_for
                (map type_of (retain_generations four (generations_to_prune four 1)).generations)
                t))
chain_for-retain_prune_example = chain_for-retain_prune four 1 four-NodupIds

retain-prune_example :
    (retain_generations four (generations_to_prune four 1)).generations
    ≡ concat type_of (kept_cycles four 1)
retain-prune_example = retain-prune four 1 four-NodupIds

cycles_example :
    (concat type_of (cycles four) ≡ four.generations)
    × All (IsCycle type_of) (cycles four)
    × AllButFirst type_of (cycles four)
cycles_example = cycles_lem four

index_to_prune-index_of_example : index_to_prune (index_of four) 1 ≡ generations_to_prune four 1
index_to_prune-index_of_example = index_to_prune-index_of four 1

assign_example :
    (sources : List (Option (ℕ × ScannedFile))) × Sources
      (first_scan ∷ second_scan ∷ [])
      (to_generation_files second_scan)
      sources
    × (get_elem? (assign (to_generation_files second_scan) (first_scan ∷ second_scan ∷ [])).0 1
        ≡ some (from_folder 1 sources))
    × ((assign (to_generation_files second_scan) (first_scan ∷ second_scan ∷ [])).1
        ≡ without_source (to_generation_files second_scan) sources)
assign_example =
    assign_lem (to_generation_files second_scan) (first_scan ∷ second_scan ∷ []) 1 (omega arith)

changed_since_example :
    ((scanned_at ("b" ∷ []) second_scan ≡ none)
      × (scanned_at ("b" ∷ []) (changed_since second_scan (to_generation_files first_scan)) ≡ none))
    ⊎ ((f : ScannedFile) × (scanned_at ("b" ∷ []) second_scan ≡ some f)
        × (((scanned_at ("b" ∷ []) (changed_since second_scan (to_generation_files first_scan))
                ≡ some f)
              × IsNew (to_generation_files first_scan) f)
            ⊎ ((scanned_at ("b" ∷ []) (changed_since second_scan (to_generation_files first_scan))
                  ≡ none)
                × IsListed (to_generation_files first_scan) f)))
changed_since_example =
    changed_since_lem ("b" ∷ []) second_scan (to_generation_files first_scan) second_scan-NodupPaths

-- An engine that fails once with an input or output error, and then copies.
abbrev attempts : ℕ → Result IngestError CopyOutcome
attempts zero = err (io "d" ErrorKind.other_kind)
attempts (suc n) = ok (record (new_outcome "naive") { bytes_copied = 7 })

run_with_retries_example :
    (n : ℕ) × StoppedAt
      (new_policy 3 1)
      attempts
      (run_with_retries (scripted attempts) (new_policy 3 1) start)
      n
run_with_retries_example = run_with_retries_lem (new_policy 3 1) attempts

abbrev scan_stopped : Scan
scan_stopped id = some (ok (folder_in stopped_run.folders id))
