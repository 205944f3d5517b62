-- ===== src/Examples/Jobs.antt =====
-- The job editor at concrete inputs.
use rustcopy.Base.{
  true, ◌≡◌, refl, some, List, [], ◌∷◌, ◌++◌, ok, arith, nat_eq, string_eq, option_eq, bool_eq,
  list_eq,
}
use rustcopy.Generations.{backup_type_eq}
use rustcopy.Checkpoint.{hash_algorithm_eq}
use rustcopy.Strings.{trim, any_char, find_char, eq_ignore_ascii_case, ends_with}
use rustcopy.Config.{JobConfig, no_settings, merged_over}
use rustcopy.JobEditor.{
  denied, validate_job_name, wanted_command, resolve_command, check_draft, apply_draft_with,
}
use rustcopy.JobEditor.Draft.{JobDraft, draft_from}
use rustcopy.JobEditor.Pinned.{pin_bool, pin, required_path, path_of, pinned}
use rustcopy.JobEditor.Proposal.{find_label, apply_drafts, propose_jobs, build_proposal_with}
use rustcopy.JobEditor.Narrowing.{KeepsAtLeast, ClearsNothing, Narrows, apply_draft_with-Narrows}
use rustcopy.JobEditor.Unchanged.{IsEditable, emptied}
use rustcopy.JobEditor.InEffect.{filled, SavedAs, draft_from-apply_draft_with}
use rustcopy.JobEditor.Uncovering.{apply_draft_with-uncovers}
use rustcopy.JobEditor.Omission.{Edited, file_of, unmarked, named_by, build_proposal_with_lem}

-- The file's values, and a job that keeps five generations and runs a command.
abbrev top : JobConfig
top = record no_settings {
  keep_generations = some 3;
  pre_command = some "top";
  verify_integrity = some true;
}

abbrev photos : JobConfig
photos = record no_settings {
  name = some "foto";
  source = some "C:/a";
  keep_generations = some 5;
  pre_command = some "own";
}

foto-valid : validate_job_name "foto" ≡ ok tt
unfolding validate_job_name find_char any_char eq_ignore_ascii_case ends_with nat_eq
foto-valid = refl

photos-IsEditable : IsEditable photos top "foto"
unfolding trim any_char nat_eq
photos-IsEditable = record {
  named = foto-valid;
  copies_or_mirrors = refl;
  backs_up_or_encrypts = refl;
  threads = refl;
  source = refl;
  dest = tt;
  report_path = tt;
  log_path = tt;
  html_report_path = tt;
  exclude_files = tt;
  exclude_dirs = tt;
  pre_command = (refl, refl);
  post_command = tt;
}

apply_draft_with-uncovers_example :
    (job : JobConfig) × (apply_draft_with
        (some photos)
        top
        (emptied (draft_from (merged_over photos top) "foto"))
        denied
      ≡ ok job)
    × ¬ KeepsAtLeast
        (merged_over photos top).keep_generations
        (merged_over job top).keep_generations
    × ((merged_over photos top).pre_command ≡ some "own")
    × ((merged_over job top).pre_command ≡ some "top")
apply_draft_with-uncovers_example =
    apply_draft_with-uncovers (some photos) top "foto" 5 3 "own" "top" photos-IsEditable refl refl
      (omega arith) refl refl

-- The form with more generations, and other retries.
abbrev longer : JobDraft
longer = record (draft_from (merged_over photos top) "foto") {
  keep_generations = some 7;
  retries = some 9;
}

abbrev longer_photos : JobConfig
longer_photos = record photos { keep_generations = some 7; retries = some 9 }

longer-accepted : apply_draft_with (some photos) top longer denied ≡ ok longer_photos
unfolding apply_draft_with check_draft resolve_command wanted_command merged_over draft_from pinned
    pin pin_bool required_path path_of validate_job_name find_char any_char eq_ignore_ascii_case
    ends_with trim nat_eq string_eq option_eq bool_eq list_eq backup_type_eq hash_algorithm_eq
longer-accepted = refl

longer-ClearsNothing : ClearsNothing top longer
unfolding wanted_command trim draft_from merged_over nat_eq
longer-ClearsNothing = record {
  keep_generations = λ h. cc h;
  pre_command = λ h. cc h;
  post_command = λ h. refl;
}

apply_draft_with-Narrows_example :
    Narrows denied (merged_over photos top) (merged_over longer_photos top)
apply_draft_with-Narrows_example =
    apply_draft_with-Narrows (some photos) top longer denied longer_photos longer-ClearsNothing
      longer-accepted

draft_from-apply_draft_with_example :
    (draft_from (merged_over longer_photos top) longer.name
      ≡ filled top longer longer_photos.pre_command longer_photos.post_command)
    × SavedAs photos.pre_command top.pre_command longer.pre_command longer_photos.pre_command
    × SavedAs photos.post_command top.post_command longer.post_command longer_photos.post_command
draft_from-apply_draft_with_example =
    draft_from-apply_draft_with (some photos) top longer denied longer_photos longer-accepted

abbrev second : JobConfig
second = record no_settings { source = some "C:/b"; dest = some "D:/c" }

proposal-accepted :
    build_proposal_with (some (file_of top (photos ∷ second ∷ []))) (longer ∷ []) denied
    ≡ ok (file_of top (longer_photos ∷ second ∷ []))
unfolding build_proposal_with propose_jobs apply_drafts find_label apply_draft_with check_draft
    resolve_command wanted_command merged_over draft_from pinned pin pin_bool required_path path_of
    validate_job_name find_char any_char eq_ignore_ascii_case ends_with trim nat_eq string_eq
    option_eq bool_eq list_eq backup_type_eq hash_algorithm_eq
proposal-accepted = refl

build_proposal_with_example :
    (edited : List JobConfig) × Edited (photos ∷ second ∷ []) top denied (longer ∷ []) edited
    × (file_of top (longer_photos ∷ second ∷ [])
        ≡ file_of top (
            edited
            ++ unmarked (named_by (photos ∷ second ∷ []) (longer ∷ [])) 0 (photos ∷ second ∷ [])))
build_proposal_with_example =
    build_proposal_with_lem top photos (second ∷ []) (longer ∷ []) denied
      (file_of top (longer_photos ∷ second ∷ [])) proposal-accepted
