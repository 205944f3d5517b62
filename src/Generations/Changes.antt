-- ===== src/Generations/Changes.antt =====
-- `changed_since`, path by path.
use rustcopy.Base.{
  ◌≡◌, ◌∙◌, ap, refl, Bool, true, false, Option, none, some, List, [], ◌∷◌, keep_if, ◌==◌, nat_eq,
  string_eq, list_eq, arith, Option-cases, Bool-cases, eq_of_test, subst, ◌⊎◌, inl, inr,
  if◌then◌else◌,
}
use rustcopy.Generations.{
  RelPath, ScannedFile, GenerationFile, find_last, file_at, is_changed, changed_since,
  to_generation_file, to_generation_files,
}

abbrev pub scanned_at : RelPath → List ScannedFile → Option ScannedFile
scanned_at path files = find_last (λ f. f.relative_path == path) files

true≢false : true ≡ false → ⊥
true≢false h = cc

-- A scan lists no path twice.
abbrev pub NodupPaths : List ScannedFile → Type 0
NodupPaths [] = Unit
NodupPaths (f ∷ fs) = (scanned_at f.relative_path fs ≡ none) × NodupPaths fs

abbrev pub to_file? : Option ScannedFile → Option GenerationFile
to_file? none = none
to_file? (some f) = some (to_generation_file f)

pub file_at-to_generation_files :
    (path : RelPath) (files : List ScannedFile)
    → file_at path (to_generation_files files) ≡ to_file? (scanned_at path files)
unfolding to_generation_files
file_at-to_generation_files path [] = refl
file_at-to_generation_files path (f ∷ fs) = ground (arith, file_at-to_generation_files path fs)

abbrev pub keep_found : (ScannedFile → Bool) → Option ScannedFile → Option ScannedFile
keep_found p none = none
keep_found p (some f) = if p f then some f else none

scanned_at-keep_if :
    (p : ScannedFile → Bool) (path : RelPath) (files : List ScannedFile)
    → NodupPaths files
    → scanned_at path (keep_if p files) ≡ keep_found p (scanned_at path files)
scanned_at-keep_if p path [] h = refl
scanned_at-keep_if p path (f ∷ fs) (new, h) = elim (Bool-cases (f.relative_path == path)) [
  | inl same ↦
      let absent : scanned_at path fs ≡ none =
        subst (λ x. scanned_at x fs ≡ none) (eq_of_test f.relative_path path same) new in
      ground (arith, same, absent, scanned_at-keep_if p path fs h)
  | inr differ ↦ ground (arith, differ, scanned_at-keep_if p path fs h)
]

-- Of a scan with no path twice, what is kept at a path is decided by the file there.
pub scanned_at-changed_since :
    (path : RelPath) (current : List ScannedFile) (reference : List GenerationFile)
    → NodupPaths current
    → scanned_at path (changed_since current reference)
      ≡ keep_found (λ f. is_changed (file_at f.relative_path reference) f) (scanned_at path current)
unfolding changed_since
scanned_at-changed_since path current reference h = scanned_at-keep_if _ path current h

-- The file that is found at a path has that path.
pub path-scanned_at :
    (path : RelPath) (files : List ScannedFile) {f : ScannedFile}
    → scanned_at path files ≡ some f
    → f.relative_path ≡ path
path-scanned_at path [] h = cc
path-scanned_at path (g ∷ files) {f} h = elim (Option-cases (scanned_at path files)) [
  | inl absent ↦ ground (arith, absent)
  | inr (y, found) ↦ path-scanned_at path files {f = f} (ground (arith, found))
]

pub keep_found_cases :
    (p : ScannedFile → Bool) (o : Option ScannedFile) (f : ScannedFile)
    → o ≡ some f
    → (keep_found p o ≡ some f) ⊎ ((keep_found p o ≡ none) × (p f ≡ false))
keep_found_cases p o f e = elim (Bool-cases (p f)) [
  | inl t ↦ inl (rw (e, t) refl)
  | inr t ↦ inr (rw (e, t) refl, t)
]

-- A file that is not changed stands in the reference with its size and its time.
pub unchanged_prior :
    (reference : List GenerationFile) (f : ScannedFile)
    → is_changed (file_at f.relative_path reference) f ≡ false
    → (prior : GenerationFile) × (file_at f.relative_path reference ≡ some prior)
      × (prior.size_bytes ≡ f.size_bytes)
      × (prior.modified_timestamp ≡ f.modified_timestamp)
unchanged_prior reference f h = elim (Option-cases (file_at f.relative_path reference)) [
  | inl absent ↦ absurd (true≢false (ground (arith, absent)))
  | inr (prior, found) ↦ (prior, found, ground (arith, found), ground (arith, found))
]

-- The reference has the file with its size and its time.
abbrev pub IsListed : List GenerationFile → ScannedFile → Type 0
IsListed reference f =
    (prior : GenerationFile) × (file_at f.relative_path reference ≡ some prior)
    × (prior.size_bytes ≡ f.size_bytes)
    × (prior.modified_timestamp ≡ f.modified_timestamp)

-- The reference has no file at the path, or one of another size or of another time.
abbrev pub IsNew : List GenerationFile → ScannedFile → Type 0
IsNew reference f =
    (file_at f.relative_path reference ≡ none)
    ⊎ ((prior : GenerationFile) × (file_at f.relative_path reference ≡ some prior)
        × (((prior.size_bytes == f.size_bytes) ≡ false)
            ⊎ ((prior.modified_timestamp == f.modified_timestamp) ≡ false)))

is_changed-IsNew :
    (reference : List GenerationFile) (f : ScannedFile)
    → is_changed (file_at f.relative_path reference) f ≡ true
    → IsNew reference f
is_changed-IsNew reference f h = elim (Option-cases (file_at f.relative_path reference)) [
  | inl absent ↦ inl absent
  | inr (prior, found) ↦ elim (Bool-cases (prior.size_bytes == f.size_bytes)) [
    | inr other ↦ inr (prior, found, inl other)
    | inl same ↦ inr (prior, found, inr (ground (arith, h, found, same)))
  ]
]

-- Of a scan with no path twice, `changed_since` has at each path the scanned file, if the reference
-- has no file there or one of another size or of another time; and nothing, if the reference has it
-- with the same size and the same time, or if the scan has no file there.
pub changed_since_lem :
    (path : RelPath) (current : List ScannedFile) (reference : List GenerationFile)
    → NodupPaths current
    → ((scanned_at path current ≡ none)
        × (scanned_at path (changed_since current reference) ≡ none))
      ⊎ ((f : ScannedFile) × (scanned_at path current ≡ some f)
          × (((scanned_at path (changed_since current reference) ≡ some f) × IsNew reference f)
              ⊎ ((scanned_at path (changed_since current reference) ≡ none)
                  × IsListed reference f)))
changed_since_lem path current reference h =
    let kept = scanned_at-changed_since path current reference h in
    elim (Option-cases (scanned_at path current)) [
      | inl absent ↦ inl (absent, kept ∙ ap (keep_found _) absent)
      | inr (f, there) ↦ elim (Bool-cases (is_changed (file_at f.relative_path reference) f)) [
        | inl changed ↦ inr (
          f,
          there,
          inl (
            kept ∙ ap (keep_found _) there ∙ ap (λ b. if b then some f else none) changed,
            is_changed-IsNew reference f changed,
          ),
        )
        | inr same ↦ inr (
          f,
          there,
          inr (
            kept ∙ ap (keep_found _) there ∙ ap (λ b. if b then some f else none) same,
            unchanged_prior reference f same,
          ),
        )
      ]
    ]
