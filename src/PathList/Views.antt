-- ===== src/PathList/Views.antt =====
-- A file of paths stands for a set of paths, and writing a changed list changes the set.
use rustcopy.Base.{
  if◌then◌else◌, Result-cases, inl, inr, Option, ◌≡◌, refl, ◌∙◌, sym, true, false, none, some, List,
  [], ◌∷◌, ◌++◌, All, arith, subst,
}
use rustcopy.Text.{Text}
use rustcopy.PathList.{
  Saving, saved, is_saved, write_paths, read_paths, render_paths, any_same, others, AllApart,
  PathSet, no_paths, set_to,
}
use rustcopy.PathList.Rendered.{IsListed, read-render}
use rustcopy.PathList.Members.{
  All-keep_if, All-snoc, any_same-others, any_same-snoc, AllApart-others, AllApart-snoc,
}

-- What a file holds, as a set: whole lines, no path twice, and the members of the set.
pub record Views (to_lowercase : Text → Text) (paths : List Text) (set : PathSet) : Type 0 where
  pub listed : All IsListed paths
  pub apart : AllApart to_lowercase paths
  pub members : (wanted : Text) → any_same to_lowercase paths wanted ≡ set wanted

module _ (to_lowercase : Text → Text) where
  pub nothing-Views : Views to_lowercase (read_paths none) no_paths
  unfolding read_paths
  nothing-Views = record { listed = tt; apart = tt; members = λ wanted. refl }

  pub others-Views :
      (paths : List Text) (set : PathSet) (path : Text)
      → Views to_lowercase paths set
      → Views to_lowercase (others to_lowercase paths path) (set_to to_lowercase false path set)
  others-Views paths set path v = record {
    listed = All-keep_if IsListed _ paths v.listed;
    apart = AllApart-others to_lowercase paths path v.apart;
    members =
        λ wanted. any_same-others to_lowercase paths path wanted ∙ ground (arith, v.members wanted);
  }

  pub snoc-Views :
      (paths : List Text) (set : PathSet) (path : Text)
      → IsListed path
      → any_same to_lowercase paths path ≡ false
      → Views to_lowercase paths set
      → Views to_lowercase (paths ++ (path ∷ [])) (set_to to_lowercase true path set)
  snoc-Views paths set path listed new v = record {
    listed = All-snoc IsListed paths path v.listed listed;
    apart = AllApart-snoc to_lowercase paths path v.apart new;
    members =
        λ wanted. any_same-snoc to_lowercase paths path wanted ∙ ground (arith, v.members wanted);
  }

  written-Views :
      (paths : List Text) (set : PathSet)
      → Views to_lowercase paths set
      → Views to_lowercase (read_paths (some (render_paths paths))) set
  written-Views paths set v =
      subst (λ ps. Views to_lowercase ps set) (sym (read-render paths v.listed)) v

  -- A write gives the set of the new paths if it is saved, and leaves the old one if not.
  pub write-Views :
      (saving : Saving) (file : Option Text) (paths : List Text) (old new : PathSet)
      → Views to_lowercase (read_paths file) old
      → Views to_lowercase paths new
      → Views to_lowercase
          (read_paths (write_paths saving file paths).1)
          (if is_saved saving then new else old)
  unfolding write_paths
  write-Views saving file paths old new before after = elim (Result-cases (saved saving)) [
    | inl (done, works) ↦ rw (works, is_saved, write_paths) (written-Views paths new after)
    | inr (e, failed) ↦ rw (failed, is_saved, write_paths) before
  ]
