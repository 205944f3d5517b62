-- ===== src/CopyPlan/WithFiles/Checked.antt =====
-- What the checks of single files leave.
use rustcopy.Base.{
  ◌≡◌, ◌∙◌, sym, String, true, false, ◌||◌, List, [], ◌∷◌, ◌++◌, All, ◌==◌, nat_eq, string_eq,
  list_eq, contains, arith, ok, >>=-ok,
}
use rustcopy.CopyPlan.{folder_name, is_nil, path_parts}
use rustcopy.CopyPlan.WithFiles.{lexical_parent_text, check_file, check_files}

module _ (to_lowercase : String → String) where
  -- No two files have one name.
  abbrev pub NamedApart : List String → Type 0
  NamedApart [] = Unit
  NamedApart (file ∷ files) =
      All (λ other. (to_lowercase (folder_name other) == to_lowercase (folder_name file)) ≡ false)
        files
      × NamedApart files

  seen-snoc :
      (seen : List String) (name x : String)
      → contains (seen ++ (name ∷ [])) x ≡ (contains seen x || (x == name))
  seen-snoc [] name x = ground arith
  seen-snoc (n ∷ seen) name x = ground (arith, seen-snoc seen name x)

  unseen_names :
      (seen : List String) (name : String) (files : List String)
      → All (λ f. contains (seen ++ (name ∷ [])) (to_lowercase (folder_name f)) ≡ false) files
      → All (λ f. contains seen (to_lowercase (folder_name f)) ≡ false) files
        × All (λ f. (to_lowercase (folder_name f) == name) ≡ false) files
  unseen_names seen name [] h = (tt, tt)
  unseen_names seen name (f ∷ files) (h, hs) =
      let rest = unseen_names seen name files hs in
      let split = sym (seen-snoc seen name (to_lowercase (folder_name f))) ∙ h in
      ((ground (arith, split), rest.0), (ground (arith, split), rest.1))

  pub none_apart : (files : List String) → is_nil files ≡ true → NamedApart files
  none_apart [] h = tt
  none_apart (file ∷ files) h = cc h

module _ (to_lowercase : String → String) (dest_root : String) where
  abbrev pub Elsewhere : String → Type 0
  Elsewhere file =
      (path_parts to_lowercase (lexical_parent_text file) == path_parts to_lowercase dest_root)
      ≡ false

  pub check_files_lem :
      (seen files : List String)
      → check_files to_lowercase dest_root seen files ≡ ok tt
      → All Elsewhere files
        × All (λ f. contains seen (to_lowercase (folder_name f)) ≡ false) files
        × NamedApart to_lowercase files
  unfolding check_files check_file
  check_files_lem seen [] h = (tt, tt, tt)
  check_files_lem seen (file ∷ files) h =
      let (_, checked, rest) = >>=-ok (check_file to_lowercase dest_root seen file) _ h in
      let (elsewhere, fresh, apart) =
        check_files_lem (seen ++ (to_lowercase (folder_name file) ∷ [])) files rest in
      let (before, different) =
        unseen_names to_lowercase seen (to_lowercase (folder_name file)) files fresh in
      ((ground (arith, checked), elsewhere), (ground (arith, checked), before), (different, apart))
