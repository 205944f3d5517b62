-- ===== src/CopyPlan/WithFiles/Woven.antt =====
-- Files and folders that are copied together go where each would alone.
use rustcopy.Base.{
  ◌≡◌, refl, ◌∙◌, ap, String, Bool, true, false, not, List, [], ◌∷◌, map, keep_if, All, ◌==◌,
  nat_eq, string_eq, list_eq, Bool-cases, inl, inr, subst, if◌then◌else◌, ok, >>=-ok,
}
use rustcopy.JobEditor.{refuse_if}
use rustcopy.CopyPlan.{folder_name, is_nil, is_bare_drive, is_same_or_inside, join, path_parts}
use rustcopy.CopyPlan.Placed.{Named}
use rustcopy.CopyPlan.Clear.{plan_copy_lem}
use rustcopy.CopyPlan.WithFiles.Checked.{NamedApart, Elsewhere, none_apart, check_files_lem}
use rustcopy.CopyPlan.WithFiles.{
  lexical_parent_text, check_files, woven, plan_folders, plan_copy_with_files,
}

All-kept {κ} :
    (P : String → Type κ) (p : String → Bool) (xs : List String) → All P xs → All P (keep_if p xs)
All-kept P p [] h = tt
All-kept P p (x ∷ xs) (h, hs) = elim (Bool-cases (p x)) [
  | inl e ↦ rw e (h, All-kept P p xs hs)
  | inr e ↦ rw e (All-kept P p xs hs)
]

module _ (to_lowercase : String → String) (is_file : String → Bool) (dest_root : String) where
  -- Where one source goes: a file into the destination, which its own folder is not; a folder under
  -- its name.
  abbrev pub Goes : String × String → Type 0
  Goes pair =
      if is_file pair.0
      then (pair.1 ≡ dest_root)
        × ((path_parts to_lowercase (lexical_parent_text pair.0)
              == path_parts to_lowercase dest_root)
            ≡ false)
      else ((pair.1 ≡ join dest_root (folder_name pair.0)) × Unit {0})

  woven-froms :
      (sources : List String) (items : List (String × String))
      → map (λ pair. pair.0) items ≡ keep_if (λ path. not (is_file path)) sources
      → map (λ pair. pair.0) (woven is_file dest_root sources items) ≡ sources
  unfolding woven
  woven-froms [] items h = refl
  woven-froms (source ∷ sources) [] h = elim (Bool-cases (is_file source)) [
    | inl file ↦ let h' = rw file at h in rw file (ap (λ l. source ∷ l) (woven-froms sources [] h'))
    | inr folder ↦ let h' = rw folder at h in cc h'
  ]
  woven-froms (source ∷ sources) (item ∷ items) h = elim (Bool-cases (is_file source)) [
    | inl file ↦
        let h' = rw file at h in
        rw file (ap (λ l. source ∷ l) (woven-froms sources (item ∷ items) h'))
    | inr folder ↦
        let h' = rw folder at h in
        let first : item.0 ≡ source = cc h' in
        let others : map (λ pair. pair.0) items ≡ keep_if (λ path. not (is_file path)) sources =
          cc h' in
        rw folder (
          ap (λ x. x ∷ map (λ pair. pair.0) (woven is_file dest_root sources items)) first
          ∙ ap (λ l. source ∷ l) (woven-froms sources items others))
  ]

  woven-Goes :
      (sources : List String) (items : List (String × String))
      → map (λ pair. pair.0) items ≡ keep_if (λ path. not (is_file path)) sources
      → All (λ pair. pair.1 ≡ join dest_root (folder_name pair.0)) items
      → All (Elsewhere to_lowercase dest_root) (keep_if is_file sources)
      → All Goes (woven is_file dest_root sources items)
  unfolding woven
  woven-Goes [] items h placed elsewhere = tt
  woven-Goes (source ∷ sources) [] h placed elsewhere = elim (Bool-cases (is_file source)) [
    | inl file ↦
        let h' = rw file at h in
        let elsewhere' = rw file at elsewhere in
        rw file (rw file (refl, elsewhere'.0), woven-Goes sources [] h' tt elsewhere'.1)
    | inr folder ↦ let h' = rw folder at h in cc h'
  ]
  woven-Goes (source ∷ sources) (item ∷ items) h placed elsewhere =
      elim (Bool-cases (is_file source)) [
        | inl file ↦
            let h' = rw file at h in
            let elsewhere' = rw file at elsewhere in
            rw file (
              rw file (refl, elsewhere'.0),
              woven-Goes sources (item ∷ items) h' placed elsewhere'.1,
            )
        | inr folder ↦
            let h' = rw folder at h in
            let elsewhere' = rw folder at elsewhere in
            let first : item.0 ≡ source = cc h' in
            let others : map (λ pair. pair.0) items ≡ keep_if (λ path. not (is_file path)) sources =
              cc h' in
            let is_folder : is_file item.0 ≡ false = ap is_file first ∙ folder in
            rw folder
              (rw is_folder (placed.0, tt), woven-Goes sources items others placed.1 elsewhere')
      ]

  -- What the folders' plan gives.
  plan_folders_lem :
      (folders : List String) (items : List (String × String))
      → All Named folders
      → is_bare_drive dest_root ≡ false
      → plan_folders to_lowercase folders dest_root ≡ ok items
      → (map (λ pair. pair.0) items ≡ folders)
        × All (λ pair. pair.1 ≡ join dest_root (folder_name pair.0)) items
        × All (λ a. All (λ b. is_same_or_inside to_lowercase a.1 b.0 ≡ false) items) items
  unfolding plan_folders
  plan_folders_lem [] items named bare h =
      let same : [] ≡ items = cc h in
      subst
        (λ is.
          (map (λ pair. pair.0) is ≡ [])
          × All (λ pair. pair.1 ≡ join dest_root (folder_name pair.0)) is
          × All (λ a. All (λ b. is_same_or_inside to_lowercase a.1 b.0 ≡ false) is) is)
        same (refl, tt, tt)
  plan_folders_lem (folder ∷ folders) items named bare h =
      let (froms, placed, _, clear) =
        plan_copy_lem to_lowercase (folder ∷ folders) dest_root items named bare h in
      (froms, placed, clear)

  -- Without files, every pair is a folder's.
  folders-Goes :
      (sources : List String) (items : List (String × String))
      → is_nil (keep_if is_file sources) ≡ true
      → map (λ pair. pair.0) items ≡ sources
      → All (λ pair. pair.1 ≡ join dest_root (folder_name pair.0)) items
      → All Goes items
  folders-Goes sources [] none h placed = tt
  folders-Goes [] (item ∷ items) none h placed = cc h
  folders-Goes (source ∷ sources) (item ∷ items) none h placed =
      elim (Bool-cases (is_file source)) [
        | inl file ↦ let none' = rw file at none in cc none'
        | inr folder ↦
            let none' = rw folder at none in
            let first : item.0 ≡ source = cc h in
            let others : map (λ pair. pair.0) items ≡ sources = cc h in
            let is_folder : is_file item.0 ≡ false = ap is_file first ∙ folder in
            (rw is_folder (placed.0, tt), folders-Goes sources items none' others placed.1)
      ]

-- A copy of folders and files that is planned has one pair for each source, in the sources' order:
-- a file goes into the destination, in which it is not already, and a folder goes to its own name
-- joined to the destination; and no two files have one name, whatever its case. (Each source's path
-- ends with its name, not with a dot, the name starts with no drive, and the chosen destination is
-- no bare drive.)
pub plan_copy_with_files_lem :
    (to_lowercase : String → String) (is_file : String → Bool) (sources : List String)
    (dest_root : String) (planned : List (String × String))
    → All Named sources
    → is_bare_drive dest_root ≡ false
    → plan_copy_with_files to_lowercase is_file sources dest_root ≡ ok planned
    → (map (λ pair. pair.0) planned ≡ sources)
      × All (Goes to_lowercase is_file dest_root) planned
      × NamedApart to_lowercase (keep_if is_file sources)
unfolding plan_copy_with_files
plan_copy_with_files_lem to_lowercase is_file sources dest_root planned named bare h =
    elim (Bool-cases (is_nil (keep_if is_file sources))) [
      | inl none ↦
          let h' = rw none at h in
          let (froms, placed, _, _) =
            plan_copy_lem to_lowercase sources dest_root planned named bare h' in
          (
            froms,
            folders-Goes to_lowercase is_file dest_root sources planned none froms placed,
            none_apart to_lowercase (keep_if is_file sources) none,
          )
      | inr some_files ↦
          let h' = rw some_files at h in
          let (_, _, h₁) = >>=-ok (refuse_if (is_nil (path_parts to_lowercase dest_root)) _) _ h' in
          let (items, went, h₂) =
            >>=-ok
              (plan_folders to_lowercase (keep_if (λ path. not (is_file path)) sources) dest_root) _
              h₁ in
          let (_, checked, made) =
            >>=-ok (check_files to_lowercase dest_root [] (keep_if is_file sources)) _ h₂ in
          let (froms, placed, _) =
            plan_folders_lem to_lowercase is_file dest_root
              (keep_if (λ path. not (is_file path)) sources) items
              (All-kept Named (λ path. not (is_file path)) sources named) bare went in
          let (elsewhere, _, apart) =
            check_files_lem to_lowercase dest_root [] (keep_if is_file sources) checked in
          let same : woven is_file dest_root sources items ≡ planned = cc made in
          subst
            (λ ps.
              (map (λ pair. pair.0) ps ≡ sources)
              × All (Goes to_lowercase is_file dest_root) ps
              × NamedApart to_lowercase (keep_if is_file sources))
            same
            (
              woven-froms to_lowercase is_file dest_root sources items froms,
              woven-Goes to_lowercase is_file dest_root sources items froms placed elsewhere,
              apart,
            )
    ]
