-- ===== src/Examples/Copying.antt =====
-- A copy of two folders at concrete inputs.
use rustcopy.Base.{
  keep_if, Bool, ◌==◌, ◌≡◌, refl, String, false, List, [], ◌∷◌, map, All, ok, nat_eq, string_eq,
  list_eq,
}
use rustcopy.Strings.{ends_with}
use rustcopy.CopyPlan.{
  is_bare_drive, split_path, trim_end_separators, folder_name, within, behind, ends_in_separator,
  join, path_parts, is_same_or_inside, check_source, plan_sources, check_planned, plan_copy,
}
use rustcopy.CopyPlan.WithFiles.{
  plan_copy_with_files, plan_folders, check_files, check_file, woven, lexical_parent_text,
  before_separator,
}
use rustcopy.CopyPlan.WithFiles.Checked.{NamedApart}
use rustcopy.CopyPlan.WithFiles.Woven.{Goes, plan_copy_with_files_lem}
use rustcopy.CopyPlan.Placed.{Named, Apart}
use rustcopy.CopyPlan.Clear.{plan_copy_lem}

abbrev same_letters : String → String
same_letters s = s

abbrev folders : List String
folders = "C:/foto" ∷ "D:/lavoro/conti/" ∷ []

abbrev destination : String
destination = "E:/copie"

folders-Named : All Named folders
unfolding folder_name split_path trim_end_separators nat_eq string_eq
folders-Named = ((refl, refl), ((refl, refl), tt))

abbrev pairs : List (String × String)
pairs = ("C:/foto", "E:/copie\\foto") ∷ ("D:/lavoro/conti/", "E:/copie\\conti") ∷ []

planned : plan_copy same_letters folders destination ≡ ok pairs
unfolding plan_copy plan_sources check_source check_planned is_same_or_inside path_parts join
    ends_in_separator behind within folder_name split_path trim_end_separators ends_with nat_eq
    string_eq list_eq
planned = refl

not_drive : is_bare_drive destination ≡ false
unfolding nat_eq
not_drive = refl

plan_copy_example :
    (map (λ pair. pair.0) pairs ≡ folders)
    × All (λ pair. pair.1 ≡ join destination (folder_name pair.0)) pairs
    × Apart same_letters pairs
    × All (λ a. All (λ b. is_same_or_inside same_letters a.1 b.0 ≡ false) pairs) pairs
plan_copy_example =
    plan_copy_lem same_letters folders destination pairs folders-Named not_drive planned

-- The same folders and a file.
abbrev is_file : String → Bool
is_file path = path == "D:/nota.txt"

abbrev chosen : List String
chosen = "C:/foto" ∷ "D:/nota.txt" ∷ "D:/lavoro/conti/" ∷ []

chosen-Named : All Named chosen
unfolding folder_name split_path trim_end_separators nat_eq string_eq
chosen-Named = ((refl, refl), ((refl, refl), ((refl, refl), tt)))

abbrev all_pairs : List (String × String)
all_pairs =
    ("C:/foto", "E:/copie\\foto")
    ∷ ("D:/nota.txt", "E:/copie")
    ∷ ("D:/lavoro/conti/", "E:/copie\\conti")
    ∷ []

all_planned : plan_copy_with_files same_letters is_file chosen destination ≡ ok all_pairs
unfolding plan_copy_with_files plan_folders check_files check_file woven lexical_parent_text
    before_separator plan_copy plan_sources check_source check_planned is_same_or_inside path_parts
    join ends_in_separator behind within folder_name split_path trim_end_separators ends_with nat_eq
    string_eq list_eq
all_planned = refl

plan_copy_with_files_example :
    (map (λ pair. pair.0) all_pairs ≡ chosen)
    × All (Goes same_letters is_file destination) all_pairs
    × NamedApart same_letters (keep_if is_file chosen)
plan_copy_with_files_example =
    plan_copy_with_files_lem same_letters is_file chosen destination all_pairs chosen-Named
      not_drive all_planned
