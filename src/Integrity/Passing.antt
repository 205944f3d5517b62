-- ===== src/Integrity/Passing.antt =====
-- When the verification of integrity.rs passes.
use rustcopy.Base.{
  ℕ, suc, ◌+◌, ◌≤◌, ◌≡◌, ◌↔◌, refl, ◌∙◌, sym, ap, String, Bool, true, false, not, ◌&&◌, Option,
  none, some, List, [], ◌∷◌, map, length, take, ◌==◌, nat_eq, string_eq, All, arith, Bool-cases,
  inl, inr, Option-cases, eq_of_test, eq_self,
}
use rustcopy.Generations.{ScannedFile}
use rustcopy.Checkpoint.{HashAlgorithm}
use rustcopy.Integrity.{
  is_passed, IntegrityCheck, FileVerificationOutcome, matches, mismatch, missing, unread, Trees,
  verify_file, record_outcome, record_outcomes, is_error, is_nil, is_clean, blank_check,
  error_count, summarise, verify, is_transient_path, lasting, ignore_transient_missing,
  max_reported_errors, compare_digests,
}
use rustcopy.Integrity.Report.{
  mismatches_of, missing_of, unread_of, take_all, Reported, record_outcomes-Reported,
}

abbrev pub every : (FileVerificationOutcome → Bool) → List FileVerificationOutcome → Bool
every p [] = true
every p (r ∷ results) = p r && every p results

abbrev pub matched : FileVerificationOutcome → Bool
matched r = not (is_error r)

-- An error that `--ignore-transient-missing` leaves out.
abbrev pub tolerated : FileVerificationOutcome → Bool
tolerated (matches bytes) = true
tolerated (mismatch m) = false
tolerated (missing label) = is_transient_path label
tolerated (unread label) = is_transient_path label

status_kept :
    (limit : ℕ) (check : IntegrityCheck) (results : List FileVerificationOutcome)
    → (record_outcomes limit check results).status ≡ check.status
unfolding record_outcomes record_outcome
status_kept limit check [] = refl
status_kept limit check (matches bytes ∷ results) =
    status_kept limit (record_outcome limit check (matches bytes)) results
status_kept limit check (mismatch m ∷ results) =
    status_kept limit (record_outcome limit check (mismatch m)) results
status_kept limit check (missing label ∷ results) =
    status_kept limit (record_outcome limit check (missing label)) results
status_kept limit check (unread label ∷ results) =
    status_kept limit (record_outcome limit check (unread label)) results

pub summarise-Reported :
    (limit : ℕ) (results : List FileVerificationOutcome)
    → Reported limit (summarise limit results) results
unfolding summarise
summarise-Reported limit results =
    let r =
      record_outcomes-Reported limit (blank_check limit (error_count results)) results refl refl
        refl in
    record {
      mismatches = r.mismatches;
      missing_in_dest = r.missing_in_dest;
      unreadable = r.unreadable;
    }

is_passed-summarise :
    (limit : ℕ) (results : List FileVerificationOutcome)
    → is_passed (summarise limit results) ≡ is_clean (summarise limit results)
unfolding summarise
is_passed-summarise limit results =
    ground (arith, status_kept limit (blank_check limit (error_count results)) results)

is_nil-take {ℓ} : {A : Type ℓ} (l : ℕ) (xs : List A) → is_nil (take (suc l) xs) ≡ is_nil xs
is_nil-take l [] = refl
is_nil-take l (x ∷ xs) = refl

all_matched :
    (results : List FileVerificationOutcome)
    → (is_nil (mismatches_of results) && is_nil (missing_of results) && is_nil (unread_of results))
      ≡ every matched results
all_matched [] = refl
all_matched (matches bytes ∷ results) = all_matched results
all_matched (mismatch m ∷ results) = refl
all_matched (missing label ∷ results) = ground arith
all_matched (unread label ∷ results) = ground arith

is_passed-every :
    (l : ℕ) (results : List FileVerificationOutcome)
    → is_passed (summarise (suc l) results) ≡ every matched results
is_passed-every l results =
    let r = summarise-Reported (suc l) results in
    is_passed-summarise (suc l) results
    ∙ rw (r.mismatches, r.missing_in_dest, r.unreadable)
        (rw
          (
            is_nil-take l (mismatches_of results),
            is_nil-take l (missing_of results),
            is_nil-take l (unread_of results),
          )
          (all_matched results))

-- The copy has the length that was scanned, and both sides have the same digest.
pub record Same (trees : Trees) (algo : HashAlgorithm) (file : ScannedFile) : Type 0 where
  pub length : trees.dest_len file.relative_path ≡ some file.size_bytes
  pub digest : String
  pub source : trees.source_hash algo file.relative_path ≡ some digest
  pub dest : trees.dest_hash algo file.relative_path ≡ some digest

pub compared-Same :
    (algo : HashAlgorithm) (file : ScannedFile) (source dest : Option String)
    → matched (compare_digests algo file source dest) ≡ true
    → (digest : String) × (source ≡ some digest) × (dest ≡ some digest)
compared-Same algo file none dest h = cc
compared-Same algo file (some source) none h = cc
compared-Same algo file (some source) (some dest) h = (dest, ground (arith, h), refl)

pub verify_file-Same :
    (trees : Trees) (algo : HashAlgorithm) (file : ScannedFile)
    → matched (verify_file trees algo file) ≡ true
    → Same trees algo file
unfolding verify_file
verify_file-Same trees algo file h = elim (Option-cases (trees.dest_len file.relative_path)) [
  | inl gone ↦ absurd (ground (arith, h, gone))
  | inr (len, there) ↦ elim (Bool-cases (len == file.size_bytes)) [
    | inl same ↦
        let digests = compared-Same algo file _ _ (rw (there, same, verify_file) at h) in
        record {
          length = there ∙ ap some (eq_of_test len file.size_bytes same);
          digest = digests.0;
          source = digests.1;
          dest = digests.2;
        }
    | inr differs ↦ absurd (ground (arith, h, there, differs))
  ]
]

Same-verify_file :
    (trees : Trees) (algo : HashAlgorithm) (file : ScannedFile)
    → Same trees algo file
    → matched (verify_file trees algo file) ≡ true
unfolding verify_file
Same-verify_file trees algo file s =
    rw (s.length, s.source, s.dest, verify_file)
      (rw (eq_self file.size_bytes, eq_self s.digest) refl)

every-All :
    (trees : Trees) (algo : HashAlgorithm) (files : List ScannedFile)
    → (every matched (map (verify_file trees algo) files) ≡ true) ↔ All (Same trees algo) files
every-All trees algo [] = (λ _. tt, λ _. refl)
every-All trees algo (file ∷ files) =
    let rest = every-All trees algo files in
    (
      λ h. (verify_file-Same trees algo file (ground (arith, h)), rest.0 (ground (arith, h))),
      λ s. rw (Same-verify_file trees algo file s.0) (rest.1 s.1),
    )

-- The verification passes exactly when each file has its copy, however many errors there are.
pub is_passed-verify :
    (trees : Trees) (files : List ScannedFile) (algo : HashAlgorithm)
    → (is_passed (verify trees files algo) ≡ true) ↔ All (Same trees algo) files
unfolding verify
is_passed-verify trees files algo =
    let same = is_passed-every 9999 (map (verify_file trees algo) files) in
    let each = every-All trees algo files in (λ h. each.0 (sym same ∙ h), λ a. same ∙ each.1 a)

pub errors_counted :
    (results : List FileVerificationOutcome)
    → length (mismatches_of results) + length (missing_of results) + length (unread_of results)
      ≡ error_count results
errors_counted [] = omega arith
errors_counted (matches bytes ∷ results) = errors_counted results
errors_counted (mismatch m ∷ results) = omega (arith, errors_counted results)
errors_counted (missing label ∷ results) = omega (arith, errors_counted results)
errors_counted (unread label ∷ results) = omega (arith, errors_counted results)

pub is_passed-ignored :
    (check : IntegrityCheck)
    → is_passed (ignore_transient_missing check) ≡ (
        is_nil check.mismatches
        && is_nil (lasting check.missing_in_dest)
        && is_nil (lasting check.unreadable))
unfolding ignore_transient_missing
is_passed-ignored check = ground arith

all_tolerated :
    (results : List FileVerificationOutcome)
    → (is_nil (mismatches_of results)
        && is_nil (lasting (missing_of results))
        && is_nil (lasting (unread_of results)))
      ≡ every tolerated results
all_tolerated [] = refl
all_tolerated (matches bytes ∷ results) = all_tolerated results
all_tolerated (mismatch m ∷ results) = refl
all_tolerated (missing label ∷ results) = ground (arith, all_tolerated results)
all_tolerated (unread label ∷ results) = ground (arith, all_tolerated results)

ignore_transient_missing-summarise :
    (limit : ℕ) (results : List FileVerificationOutcome)
    → error_count results ≤ limit
    → is_passed (ignore_transient_missing (summarise limit results)) ≡ every tolerated results
ignore_transient_missing-summarise limit results h =
    let r = summarise-Reported limit results in
    let n = errors_counted results in
    is_passed-ignored (summarise limit results)
    ∙ rw (r.mismatches, r.missing_in_dest, r.unreadable)
        (rw
          (
            take_all limit (mismatches_of results) (omega (arith, h, n)),
            take_all limit (missing_of results) (omega (arith, h, n)),
            take_all limit (unread_of results) (omega (arith, h, n)),
          )
          (all_tolerated results))

-- With transient files left out, a verification whose errors all fit the report passes exactly when
-- every file matches, or could not be compared and has the name of a transient file.
pub ignore_transient_missing-verify :
    (trees : Trees) (files : List ScannedFile) (algo : HashAlgorithm)
    → error_count (map (verify_file trees algo) files) ≤ max_reported_errors
    → is_passed (ignore_transient_missing (verify trees files algo))
      ≡ every tolerated (map (verify_file trees algo) files)
unfolding verify
ignore_transient_missing-verify trees files algo h =
    ignore_transient_missing-summarise max_reported_errors (map (verify_file trees algo) files) h
