-- ===== src/Examples/Copies.antt =====
-- The verification of copies at concrete inputs.
use rustcopy.Base.{
  ℕ, zero, suc, ◌≡◌, ◌↔◌, refl, ap, true, none, some, List, [], ◌∷◌, ◌++◌, map, length, All, arith,
  nat_eq, string_eq, list_eq, ◌==◌, if◌then◌else◌,
}
use rustcopy.Generations.{ScannedFile, RelPath}
use rustcopy.Checkpoint.{sha256, xxh3}
use rustcopy.Integrity.{
  FileVerificationOutcome, is_passed, Trees, verify_file, verify, is_transient_path,
  ignore_transient_missing, max_reported_errors,
}
use rustcopy.Integrity.Outcomes.{Outcomes, Reports, verify_lem}
use rustcopy.Integrity.Passing.{Same, every, tolerated, ignore_transient_missing-verify}
use rustcopy.Integrity.Hidden.{label, Missing, verify-hides}

abbrev file_at : RelPath → ScannedFile
file_at path = record { relative_path = path; size_bytes = 3; modified_timestamp = 5 }

abbrev log_file : ScannedFile
log_file = file_at ("run.log" ∷ [])

abbrev letter : ScannedFile
letter = file_at ("lettera.txt" ∷ [])

-- A copy that lacks all but the letter.
abbrev trees : Trees
trees = record {
  dest_len = λ path. if path == "lettera.txt" ∷ [] then some 3 else none;
  source_hash = λ algo path. some "00";
  dest_hash = λ algo path. some "00";
}

verify_example :
    (results : List FileVerificationOutcome) × Outcomes trees sha256
      (letter ∷ log_file ∷ [])
      results
    × Reports (verify trees (letter ∷ log_file ∷ []) sha256) results
    × ((is_passed (verify trees (letter ∷ log_file ∷ []) sha256) ≡ true)
        ↔ All (Same trees sha256) (letter ∷ log_file ∷ []))
verify_example = verify_lem trees (letter ∷ log_file ∷ []) sha256

ignore_transient_missing_example :
    is_passed (ignore_transient_missing (verify trees (letter ∷ log_file ∷ []) xxh3))
    ≡ every tolerated (map (verify_file trees xxh3) (letter ∷ log_file ∷ []))
unfolding verify_file string_eq nat_eq list_eq
ignore_transient_missing_example =
    ignore_transient_missing-verify trees (letter ∷ log_file ∷ []) xxh3 (omega arith)

-- A copy that lacks everything.
abbrev nothing_copied : Trees
nothing_copied = record {
  dest_len = λ path. none;
  source_hash = λ algo path. some "00";
  dest_hash = λ algo path. none;
}

repeated_file : ℕ → ScannedFile → List ScannedFile
repeated_file zero file = []
repeated_file (suc n) file = file ∷ repeated_file n file

length-repeated_file : (n : ℕ) (file : ScannedFile) → length (repeated_file n file) ≡ n
unfolding repeated_file
length-repeated_file zero file = refl
length-repeated_file (suc n) file = ap suc (length-repeated_file n file)

All-repeated_file {κ} :
    (P : ScannedFile → Type κ) (n : ℕ) (file : ScannedFile) → P file → All P (repeated_file n file)
unfolding repeated_file
All-repeated_file P zero file h = tt
All-repeated_file P (suc n) file h = (h, All-repeated_file P n file h)

log_file-transient : is_transient_path (label log_file) ≡ true
unfolding is_transient_path nat_eq list_eq
log_file-transient = refl

verify-hides_example :
    is_passed (
      ignore_transient_missing (
        verify nothing_copied (repeated_file max_reported_errors log_file ++ (letter ∷ [])) sha256))
    ≡ true
verify-hides_example =
    verify-hides nothing_copied sha256 (repeated_file max_reported_errors log_file) (letter ∷ [])
      (length-repeated_file max_reported_errors log_file)
      (All-repeated_file (λ file. is_transient_path (label file) ≡ true) max_reported_errors
        log_file log_file-transient)
      (All-repeated_file (Missing nothing_copied) max_reported_errors log_file refl) (refl, tt)
