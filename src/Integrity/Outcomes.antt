-- ===== src/Integrity/Outcomes.antt =====
-- The whole report of a verification.
use rustcopy.Base.{
  ℕ, suc, ◌+◌, ◌≡◌, ◌↔◌, ◌⊎◌, refl, ◌∙◌, sym, ap, String, true, false, Option, none, some, List, [],
  ◌∷◌, map, length, take, ◌==◌, nat_eq, string_eq, list_eq, ltb, All, arith, Bool-cases, inl, inr,
  Option-cases, eq_of_test,
}
use rustcopy.Generations.{ScannedFile}
use rustcopy.Checkpoint.{HashAlgorithm}
use rustcopy.Integrity.{
  is_passed, Mismatch, size, hash, IntegrityCheck, FileVerificationOutcome, matches, mismatch,
  missing, unread, Trees, compare_digests, verify_file, record_outcome, record_outcomes,
  blank_check, error_count, summarise, verify, to_display, max_reported_errors,
}
use rustcopy.Integrity.Report.{mismatches_of, missing_of, unread_of}
use rustcopy.Integrity.Passing.{Same, summarise-Reported, errors_counted, is_passed-verify}

-- Why a file that is in the copy differs: it has another length, or its digests are two.
abbrev pub Differs : Trees → HashAlgorithm → ScannedFile → Mismatch → Type 0
Differs trees algo file m =
    ((len : ℕ) × (trees.dest_len file.relative_path ≡ some len)
      × ((len == file.size_bytes) ≡ false)
      × (m.kind ≡ size))
    ⊎ ((trees.dest_len file.relative_path ≡ some file.size_bytes)
        × (trees.source_hash algo file.relative_path ≡ some m.source_digest)
        × (trees.dest_hash algo file.relative_path ≡ some m.dest_digest)
        × ((m.source_digest == m.dest_digest) ≡ false)
        × (m.kind ≡ hash))

-- What an outcome says of its file.
abbrev pub IsOutcome : Trees → HashAlgorithm → ScannedFile → FileVerificationOutcome → Type 0
IsOutcome trees algo file (matches bytes) = (bytes ≡ file.size_bytes) × Same trees algo file
IsOutcome trees algo file (mismatch m) =
    (m.path ≡ to_display file.relative_path) × Differs trees algo file m
IsOutcome trees algo file (missing label) =
    (label ≡ to_display file.relative_path) × (trees.dest_len file.relative_path ≡ none)
IsOutcome trees algo file (unread label) =
    (label ≡ to_display file.relative_path)
    × (trees.dest_len file.relative_path ≡ some file.size_bytes)
    × ((trees.source_hash algo file.relative_path ≡ none)
        ⊎ (trees.dest_hash algo file.relative_path ≡ none))

-- Each file has its outcome, in order.
abbrev pub Outcomes :
    Trees → HashAlgorithm → List ScannedFile → List FileVerificationOutcome → Type 0
Outcomes trees algo [] [] = Unit
Outcomes trees algo [] (r ∷ results) = ⊥
Outcomes trees algo (file ∷ files) [] = ⊥
Outcomes trees algo (file ∷ files) (r ∷ results) =
    IsOutcome trees algo file r × Outcomes trees algo files results

compared-IsOutcome :
    (trees : Trees) (algo : HashAlgorithm) (file : ScannedFile) (source dest : Option String)
    → trees.dest_len file.relative_path ≡ some file.size_bytes
    → trees.source_hash algo file.relative_path ≡ source
    → trees.dest_hash algo file.relative_path ≡ dest
    → IsOutcome trees algo file (compare_digests algo file source dest)
compared-IsOutcome trees algo file none dest len s d = (refl, len, inl s)
compared-IsOutcome trees algo file (some source) none len s d = (refl, len, inr d)
compared-IsOutcome trees algo file (some source) (some dest) len s d =
    elim (Bool-cases (source == dest)) [
      | inl same ↦ rw same (
        refl,
        record {
          length = len;
          digest = dest;
          source = s ∙ ap some (eq_of_test source dest same);
          dest = d;
        },
      )
      | inr differs ↦ rw differs (refl, inr (len, s, d, differs, refl))
    ]

verify_file-IsOutcome :
    (trees : Trees) (algo : HashAlgorithm) (file : ScannedFile)
    → IsOutcome trees algo file (verify_file trees algo file)
unfolding verify_file
verify_file-IsOutcome trees algo file = elim (Option-cases (trees.dest_len file.relative_path)) [
  | inl gone ↦ rw (gone, verify_file) (refl, gone)
  | inr (len, there) ↦ elim (Bool-cases (len == file.size_bytes)) [
    | inr differs ↦ rw (there, differs, verify_file) (refl, inl (len, there, differs, refl))
    | inl same ↦
        rw (there, same, verify_file)
          (compared-IsOutcome trees algo file (trees.source_hash algo file.relative_path)
            (trees.dest_hash algo file.relative_path)
            (there ∙ ap some (eq_of_test len file.size_bytes same)) refl refl)
  ]
]

all-Outcomes :
    (trees : Trees) (algo : HashAlgorithm) (files : List ScannedFile)
    → Outcomes trees algo files (map (verify_file trees algo) files)
all-Outcomes trees algo [] = tt
all-Outcomes trees algo (file ∷ files) =
    (verify_file-IsOutcome trees algo file, all-Outcomes trees algo files)

-- How many outcomes are matches, and how many bytes those have.
abbrev pub checked_of : List FileVerificationOutcome → ℕ
checked_of [] = 0
checked_of (matches bytes ∷ results) = suc (checked_of results)
checked_of (mismatch m ∷ results) = checked_of results
checked_of (missing label ∷ results) = checked_of results
checked_of (unread label ∷ results) = checked_of results

abbrev pub bytes_of : List FileVerificationOutcome → ℕ
bytes_of [] = 0
bytes_of (matches bytes ∷ results) = bytes + bytes_of results
bytes_of (mismatch m ∷ results) = bytes_of results
bytes_of (missing label ∷ results) = bytes_of results
bytes_of (unread label ∷ results) = bytes_of results

-- The counts of a report that goes on from a check.
record Counts (check after : IntegrityCheck) (results : List FileVerificationOutcome) : Type 0 where
  files_checked : after.files_checked ≡ check.files_checked + checked_of results
  bytes_hashed : after.bytes_hashed ≡ check.bytes_hashed + bytes_of results
  truncated : after.truncated ≡ check.truncated
  total_errors : after.total_errors ≡ check.total_errors

record_outcomes-Counts :
    (limit : ℕ) (check : IntegrityCheck) (results : List FileVerificationOutcome)
    → Counts check (record_outcomes limit check results) results
unfolding record_outcomes record_outcome
record_outcomes-Counts limit check [] = record {
  files_checked = omega arith;
  bytes_hashed = omega arith;
  truncated = refl;
  total_errors = refl;
}
record_outcomes-Counts limit check (matches bytes ∷ results) =
    let c = record_outcomes-Counts limit (record_outcome limit check (matches bytes)) results in
    record {
      files_checked = c.files_checked ∙ omega arith;
      bytes_hashed = c.bytes_hashed ∙ omega arith;
      truncated = c.truncated;
      total_errors = c.total_errors;
    }
record_outcomes-Counts limit check (mismatch m ∷ results) =
    let c = record_outcomes-Counts limit (record_outcome limit check (mismatch m)) results in
    record {
      files_checked = c.files_checked;
      bytes_hashed = c.bytes_hashed;
      truncated = c.truncated;
      total_errors = c.total_errors;
    }
record_outcomes-Counts limit check (missing label ∷ results) =
    let c = record_outcomes-Counts limit (record_outcome limit check (missing label)) results in
    record {
      files_checked = c.files_checked;
      bytes_hashed = c.bytes_hashed;
      truncated = c.truncated;
      total_errors = c.total_errors;
    }
record_outcomes-Counts limit check (unread label ∷ results) =
    let c = record_outcomes-Counts limit (record_outcome limit check (unread label)) results in
    record {
      files_checked = c.files_checked;
      bytes_hashed = c.bytes_hashed;
      truncated = c.truncated;
      total_errors = c.total_errors;
    }

-- A report of the outcomes: the counts, of each kind of error the first ten thousand, and all the
-- errors counted.
pub record Reports (check : IntegrityCheck) (results : List FileVerificationOutcome) : Type 0 where
  pub files_checked : check.files_checked ≡ checked_of results
  pub bytes_hashed : check.bytes_hashed ≡ bytes_of results
  pub mismatches : check.mismatches ≡ take 10000 (mismatches_of results)
  pub missing_in_dest : check.missing_in_dest ≡ take 10000 (missing_of results)
  pub unreadable : check.unreadable ≡ take 10000 (unread_of results)
  pub total_errors :
      check.total_errors
      ≡ length (mismatches_of results) + length (missing_of results) + length (unread_of results)
  pub truncated : check.truncated ≡ ltb 10000 check.total_errors

summarise-Reports :
    (results : List FileVerificationOutcome)
    → Reports (summarise max_reported_errors results) results
unfolding summarise
summarise-Reports results =
    let c =
      record_outcomes-Counts max_reported_errors
        (blank_check max_reported_errors (error_count results)) results in
    let r = summarise-Reported max_reported_errors results in
    record {
      files_checked = c.files_checked ∙ omega arith;
      bytes_hashed = c.bytes_hashed ∙ omega arith;
      mismatches = r.mismatches;
      missing_in_dest = r.missing_in_dest;
      unreadable = r.unreadable;
      total_errors = c.total_errors ∙ sym (errors_counted results);
      truncated = c.truncated ∙ ap (ltb 10000) (sym c.total_errors);
    }

-- Every scanned file has its outcome: it is missing in the copy, or has another length there, or one
-- side cannot be read, or the digests differ, or all is the same. The report counts the files that
-- match and their bytes, lists of each kind of error the first ten thousand in order, counts all the
-- errors, and is truncated if they are more than ten thousand. The verification passes exactly when
-- every scanned file is in the copy with the length that was scanned and both sides could be read
-- and have the same digest, however many errors there are.
pub verify_lem :
    (trees : Trees) (files : List ScannedFile) (algo : HashAlgorithm)
    → (results : List FileVerificationOutcome) × Outcomes trees algo files results
      × Reports (verify trees files algo) results
      × ((is_passed (verify trees files algo) ≡ true) ↔ All (Same trees algo) files)
unfolding verify
verify_lem trees files algo = (
  map (verify_file trees algo) files,
  all-Outcomes trees algo files,
  summarise-Reports (map (verify_file trees algo) files),
  is_passed-verify trees files algo,
)
