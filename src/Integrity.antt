-- ===== src/Integrity.antt =====
-- The comparison of the copy with its source: crates/rustcopy-core/src/integrity.rs. What the two
-- trees answer (lengths and digests) is a parameter; the pool of threads keeps the order of the
-- files.
pub mod Report
pub mod Passing
pub mod Outcomes
pub mod Hidden
use rustcopy.Base.{
  ℕ, zero, suc, ◌+◌, String, Bool, true, false, not, ◌&&◌, ◌||◌, Option, none, some, List, [], ◌∷◌,
  ◌++◌, map, length, keep_if, ◌==◌, nat_eq, string_eq, list_eq, ltb, if◌then◌else◌,
}
use rustcopy.Generations.{RelPath, ScannedFile}
use rustcopy.Checkpoint.{HashAlgorithm, sha256, blake3, xxh3}
use rustcopy.Strings.{append, decimal, codes, lowered, ends_with_text, contains_text}

pub data IntegrityStatus : Type 0 where
  passed failed : IntegrityStatus

pub data MismatchKind : Type 0 where
  size hash : MismatchKind

pub record Mismatch : Type 0 where
  pub path : String
  pub kind : MismatchKind
  pub algorithm : String
  pub source_digest : String
  pub dest_digest : String

abbrev pub max_reported_errors : ℕ
max_reported_errors = 10000

pub record IntegrityCheck : Type 0 where
  pub files_checked : ℕ
  pub bytes_hashed : ℕ
  pub mismatches : List Mismatch
  pub missing_in_dest : List String
  pub unreadable : List String
  pub status : IntegrityStatus
  pub truncated : Bool
  pub total_errors : ℕ
  pub skipped_unchanged : ℕ

-- `IntegrityCheck::passed`
abbrev pub is_passed : IntegrityCheck → Bool
is_passed check = elim check.status [ passed ↦ true | failed ↦ false ]

-- The outcome of one file.
pub data FileVerificationOutcome : Type 0 where
  matches : ℕ → FileVerificationOutcome
  mismatch : Mismatch → FileVerificationOutcome
  missing : String → FileVerificationOutcome
  unread : String → FileVerificationOutcome

-- What can be read of the two trees: the length of a copied file, and a digest on either side.
pub record Trees : Type 0 where
  pub dest_len : RelPath → Option ℕ
  pub source_hash : HashAlgorithm → RelPath → Option String
  pub dest_hash : HashAlgorithm → RelPath → Option String

abbrev pub algorithm_name : HashAlgorithm → String
algorithm_name sha256 = "sha256"
algorithm_name blake3 = "blake3"
algorithm_name xxh3 = "xxh3"

abbrev pub to_display : RelPath → String
to_display [] = ""
to_display (part ∷ []) = part
to_display (part ∷ next ∷ parts) = append part (append "/" (to_display (next ∷ parts)))

-- Both digests were made.
abbrev pub compare_digests :
    HashAlgorithm → ScannedFile → Option String → Option String → FileVerificationOutcome
compare_digests algo file (some source_hash) (some dest_hash) =
    if source_hash == dest_hash
    then matches file.size_bytes
    else mismatch (record {
      path = to_display file.relative_path;
      kind = hash;
      algorithm = algorithm_name algo;
      source_digest = source_hash;
      dest_digest = dest_hash;
    })
compare_digests algo file none dest = unread (to_display file.relative_path)
compare_digests algo file (some source_hash) none = unread (to_display file.relative_path)

unfoldable pub verify_file : Trees → HashAlgorithm → ScannedFile → FileVerificationOutcome
verify_file trees algo file = elim (trees.dest_len file.relative_path) [
  | none ↦ missing (to_display file.relative_path)
  | some len ↦
      if not (len == file.size_bytes)
      then mismatch (record {
        path = to_display file.relative_path;
        kind = size;
        algorithm = "size";
        source_digest = append (decimal file.size_bytes) "B";
        dest_digest = append (decimal len) "B";
      })
      else compare_digests algo file (trees.source_hash algo file.relative_path)
          (trees.dest_hash algo file.relative_path)
]

-- The lists of a report hold no more than a limit.
abbrev pub push_capped {ℓ} : {A : Type ℓ} → ℕ → List A → A → List A
push_capped limit xs x = if ltb (length xs) limit then xs ++ (x ∷ []) else xs

unfoldable pub record_outcome : ℕ → IntegrityCheck → FileVerificationOutcome → IntegrityCheck
record_outcome limit check (matches bytes) = record check {
  files_checked = check.files_checked + 1;
  bytes_hashed = check.bytes_hashed + bytes;
}
record_outcome limit check (mismatch m) = record check {
  mismatches = push_capped limit check.mismatches m;
}
record_outcome limit check (missing label) = record check {
  missing_in_dest = push_capped limit check.missing_in_dest label;
}
record_outcome limit check (unread label) = record check {
  unreadable = push_capped limit check.unreadable label;
}

unfoldable pub record_outcomes : ℕ → IntegrityCheck → List FileVerificationOutcome → IntegrityCheck
record_outcomes limit check [] = check
record_outcomes limit check (r ∷ results) =
    record_outcomes limit (record_outcome limit check r) results

abbrev pub is_error : FileVerificationOutcome → Bool
is_error (matches bytes) = false
is_error (mismatch m) = true
is_error (missing label) = true
is_error (unread label) = true

abbrev pub is_nil {ℓ} : {A : Type ℓ} → List A → Bool
is_nil [] = true
is_nil (x ∷ xs) = false

abbrev pub is_clean : IntegrityCheck → Bool
is_clean check = is_nil check.mismatches && is_nil check.missing_in_dest && is_nil check.unreadable

abbrev pub blank_check : ℕ → ℕ → IntegrityCheck
blank_check limit errors = record {
  files_checked = 0;
  bytes_hashed = 0;
  mismatches = [];
  missing_in_dest = [];
  unreadable = [];
  status = passed;
  truncated = ltb limit errors;
  total_errors = errors;
  skipped_unchanged = 0;
}

abbrev pub error_count : List FileVerificationOutcome → ℕ
error_count results = length (keep_if is_error results)

-- What is made of the outcomes.
unfoldable pub summarise : ℕ → List FileVerificationOutcome → IntegrityCheck
summarise limit results =
    let check = record_outcomes limit (blank_check limit (error_count results)) results in
    record check { status = if is_clean check then check.status else failed }

unfoldable pub verify : Trees → List ScannedFile → HashAlgorithm → IntegrityCheck
verify trees files algo = summarise max_reported_errors (map (verify_file trees algo) files)

unfoldable pub is_transient_path : String → Bool
is_transient_path path =
    let lower = lowered (codes path) in
    ends_with_text (codes ".log") lower
    || ends_with_text (codes ".tmp") lower
    || contains_text (codes ".git/objects/") lower

abbrev pub lasting : List String → List String
lasting paths = keep_if (λ p. not (is_transient_path p)) paths

unfoldable pub ignore_transient_missing : IntegrityCheck → IntegrityCheck
ignore_transient_missing check =
    let kept = record check {
      missing_in_dest = lasting check.missing_in_dest;
      unreadable = lasting check.unreadable;
    } in
    record kept { status = if is_clean kept then passed else failed }
