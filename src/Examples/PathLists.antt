-- ===== src/Examples/PathLists.antt =====
-- The lists of paths at concrete inputs.
use rustcopy.Base.{
  subst, ◌≡◌, refl, true, false, none, List, [], ◌∷◌, All, map, Result, ok, err, nat_eq,
}
use rustcopy.Errors.{IngestError, copy_plan_invalid}
use rustcopy.Strings.{codes, ascii_lower}
use rustcopy.Text.{Text, trim}
use rustcopy.PathList.{Saving, read_paths, any_same, AllApart, no_paths}
use rustcopy.PathList.Rendered.{IsListed}
use rustcopy.Suspended.{contains}
use rustcopy.Suspended.Set.{Request, run, meant, contains-meant}
use rustcopy.KnownConfigs.Set.{
  Request as Change, run as run_changes, meant as meant_by, Fits, add, remove, run-meant,
}

abbrev to_lowercase : Text → Text
to_lowercase t = map ascii_lower t

abbrev saves : Saving
saves = record { folder = ok tt; written = ok tt }

abbrev full_disk : Saving
full_disk = record { folder = ok tt; written = err (copy_plan_invalid "full") }

abbrev photos : Text
photos = codes "C:/Foto.toml"

abbrev photos_again : Text
photos_again = codes "c:/foto.toml"

photos-IsListed : IsListed photos
unfolding trim nat_eq
photos-IsListed = record {
  one_line = (
    refl,
    (refl, (refl, (refl, (refl, (refl, (refl, (refl, (refl, (refl, (refl, (refl, tt))))))))))),
  );
  trimmed = refl;
  not_empty = refl;
  no_bom = refl;
}

photos_again-IsListed : IsListed photos_again
unfolding trim nat_eq
photos_again-IsListed = record {
  one_line = (
    refl,
    (refl, (refl, (refl, (refl, (refl, (refl, (refl, (refl, (refl, (refl, (refl, tt))))))))))),
  );
  trimmed = refl;
  not_empty = refl;
  no_bom = refl;
}

-- Suspended, then reactivated with a failing disk, then suspended under another spelling.
abbrev requests : List Request
requests =
    record { config = photos; suspended = true; saving = saves }
    ∷ record { config = photos; suspended = false; saving = full_disk }
    ∷ record { config = photos_again; suspended = true; saving = saves }
    ∷ []

contains-meant_example :
    ((wanted : Text)
      → contains to_lowercase (run to_lowercase none requests) wanted
        ≡ meant to_lowercase no_paths requests wanted)
    × AllApart to_lowercase (read_paths (run to_lowercase none requests))
contains-meant_example =
    contains-meant to_lowercase requests
      (photos-IsListed, (photos-IsListed, (photos_again-IsListed, tt)))

-- Added twice, and removed under another spelling.
abbrev changes : List Change
changes =
    add saves (ok photos) (λ path. ok tt)
    ∷ add saves (ok photos_again) (λ path. ok tt)
    ∷ remove saves photos_again
    ∷ []

respelled-IsListed :
    (a b : Text) → IsListed a → ◌≡◌ {A = Result IngestError Text} (ok a) (ok b) → IsListed b
respelled-IsListed a b listed h = let same : a ≡ b = cc h in subst IsListed same listed

changes-Fits : All Fits changes
changes-Fits = (
  λ path made. respelled-IsListed photos path photos-IsListed made,
  (λ path made. respelled-IsListed photos_again path photos_again-IsListed made, (tt, tt)),
)

run-meant_example :
    ((wanted : Text)
      → any_same to_lowercase (read_paths (run_changes to_lowercase none changes)) wanted
        ≡ meant_by to_lowercase no_paths changes wanted)
    × AllApart to_lowercase (read_paths (run_changes to_lowercase none changes))
run-meant_example = run-meant to_lowercase changes changes-Fits
