-- ===== src/GenerationRun/Removal.antt =====
-- What the removal of folders leaves alone.
use rustcopy.Base.{
  ◌≡◌, ◌∙◌, refl, sym, subst, String, true, false, Option, List, [], ◌∷◌, contains, ◌==◌, string_eq,
  arith, Bool-cases, Option-cases, inl, inr, eq_of_test,
}
use rustcopy.Errors.{IngestError}
use rustcopy.Generations.{ScannedFile}
use rustcopy.GenerationRun.{folder_in, has_folder, without_folder, remove_folders}

true≢false : true ≡ false → ⊥
true≢false h = cc

folder_in-without_folder :
    (id j : String) (fs : List (String × List ScannedFile))
    → (id == j) ≡ false
    → folder_in (without_folder id fs) j ≡ folder_in fs j
folder_in-without_folder id j [] h = refl
folder_in-without_folder id j ((i, x) ∷ fs) h = elim (Bool-cases (i == id)) [
  | inl same ↦
      let other : (i == j) ≡ false = subst (λ a. (a == j) ≡ false) (sym (eq_of_test i id same)) h in
      ground (arith, same, other, folder_in-without_folder id j fs h)
  | inr differ ↦ ground (arith, differ, folder_in-without_folder id j fs h)
]

-- The folder of an id that is not to be removed stays as it is, whatever fails.
pub folder_in-remove_folders :
    (fails : String → Option (IngestError × List ScannedFile)) (ids : List String) (j : String)
    (fs : List (String × List ScannedFile))
    → contains ids j ≡ false
    → folder_in (remove_folders fails ids fs).1 j ≡ folder_in fs j
unfolding remove_folders
folder_in-remove_folders fails [] j fs h = refl
folder_in-remove_folders fails (id ∷ ids) j fs h =
    let other : (id == j) ≡ false = ground arith in
    let rest : contains ids j ≡ false = ground arith in
    elim (Bool-cases (has_folder fs id)) [
      | inr absent ↦ rw (absent, remove_folders) (folder_in-remove_folders fails ids j fs rest)
      | inl there ↦ elim (Option-cases (fails id)) [
        | inl gone ↦
            rw (there, remove_folders, gone)
              (folder_in-remove_folders fails ids j (without_folder id fs) rest
                ∙ folder_in-without_folder id j fs other)
        | inr ((e, left), stuck) ↦
            rw (there, remove_folders, stuck, other) (folder_in-without_folder id j fs other)
      ]
    ]
