-- ===== src/Integrity/Hidden.antt =====
-- Errors that the limit of a report of integrity.rs hides from `--ignore-transient-missing`.
use rustcopy.Base.{
  ◌≡◌, refl, ◌∙◌, ap, true, String, none, List, [], ◌∷◌, ◌++◌, map, length, All, arith,
}
use rustcopy.Generations.{ScannedFile}
use rustcopy.Checkpoint.{HashAlgorithm}
use rustcopy.Integrity.{
  is_passed, lasting, missing, Trees, verify_file, summarise, verify, is_transient_path,
  ignore_transient_missing, max_reported_errors, to_display,
}
use rustcopy.Integrity.Report.{mismatches_of, missing_of, unread_of, take_full}
use rustcopy.Integrity.Passing.{summarise-Reported, is_passed-ignored}

abbrev pub label : ScannedFile → String
label file = to_display file.relative_path

-- The copy lacks a file.
abbrev pub Missing : Trees → ScannedFile → Type 0
Missing trees file = trees.dest_len file.relative_path ≡ none

verify_file-missing :
    (trees : Trees) (algo : HashAlgorithm) (file : ScannedFile)
    → Missing trees file
    → verify_file trees algo file ≡ missing (label file)
unfolding verify_file
verify_file-missing trees algo file h = rw (h, verify_file) refl

missing_labels :
    (trees : Trees) (algo : HashAlgorithm) (files : List ScannedFile)
    → All (Missing trees) files
    → map (verify_file trees algo) files ≡ map missing (map label files)
missing_labels trees algo [] h = refl
missing_labels trees algo (file ∷ files) (h, hs) =
    rw (verify_file-missing trees algo file h)
      (ap (λ rs. missing (label file) ∷ rs) (missing_labels trees algo files hs))

only_missing :
    (labels : List String)
    → (mismatches_of (map missing labels) ≡ [])
      × (missing_of (map missing labels) ≡ labels)
      × (unread_of (map missing labels) ≡ [])
only_missing [] = (refl, refl, refl)
only_missing (l ∷ labels) =
    let rest = only_missing labels in (rest.0, ap (λ ls. l ∷ ls) rest.1, rest.2)

transient-lasting :
    (files : List ScannedFile)
    → All (λ file. is_transient_path (label file) ≡ true) files
    → lasting (map label files) ≡ []
transient-lasting [] h = refl
transient-lasting (file ∷ files) (h, hs) = rw h (transient-lasting files hs)

All-append {ℓ κ} :
    {A : Type ℓ} (P : A → Type κ) (xs ys : List A) → All P xs → All P ys → All P (xs ++ ys)
All-append P [] ys h k = k
All-append P (x ∷ xs) ys (h, hs) k = (h, All-append P xs ys hs k)

map-append {ℓ κ} :
    {A : Type ℓ} {B : Type κ} (f : A → B) (xs ys : List A) → map f (xs ++ ys) ≡ map f xs ++ map f ys
map-append f [] ys = refl
map-append f (x ∷ xs) ys = ap (λ zs. f x ∷ zs) (map-append f xs ys)

length-labels : (files : List ScannedFile) → length (map label files) ≡ length files
length-labels [] = refl
length-labels (file ∷ files) = omega (arith, length-labels files)

-- Where the copy lacks as many transient files as a report holds, and they come first, the
-- verification passes with `--ignore-transient-missing` whatever files the copy lacks behind them.
pub verify-hides :
    (trees : Trees) (algo : HashAlgorithm) (transients others : List ScannedFile)
    → length transients ≡ max_reported_errors
    → All (λ file. is_transient_path (label file) ≡ true) transients
    → All (Missing trees) transients
    → All (Missing trees) others
    → is_passed (ignore_transient_missing (verify trees (transients ++ others) algo)) ≡ true
unfolding verify
verify-hides trees algo transients others full transient gone lost =
    let files = transients ++ others in
    let labels = map label files in
    let results = map missing labels in
    let r = summarise-Reported max_reported_errors results in
    let only = only_missing labels in
    rw (missing_labels trees algo files (All-append (Missing trees) transients others gone lost)) (
      is_passed-ignored (summarise max_reported_errors results)
      ∙ rw (r.mismatches, r.missing_in_dest, r.unreadable)
          (rw (only.0, only.1, only.2)
            (rw
              (
                map-append label transients others,
                take_full max_reported_errors (map label transients) (map label others)
                    (length-labels transients ∙ full),
              )
              (rw (transient-lasting transients transient) refl))))
