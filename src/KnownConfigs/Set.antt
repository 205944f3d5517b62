-- ===== src/KnownConfigs/Set.antt =====
-- Whatever is added and removed, `configs.txt` stands for the set that the requests describe.
use rustcopy.Base.{
  >>=-ok, ◌≡◌, refl, ◌∙◌, sym, true, false, Option, none, List, [], ◌∷◌, Bool-cases, inl, inr,
  if◌then◌else◌, Result, ok, err, ◌>>◌, Result-cases, All,
}
use rustcopy.Errors.{IngestError}
use rustcopy.Text.{Text}
use rustcopy.PathList.{
  Saving, is_saved, read_paths, same_path, any_same, AllApart, PathSet, no_paths, set_to,
}
use rustcopy.PathList.Rendered.{IsListed}
use rustcopy.PathList.Members.{any_same-same}
use rustcopy.PathList.Views.{Views, nothing-Views, others-Views, snoc-Views, write-Views}
use rustcopy.KnownConfigs.{accepted_file, keep_file, add_config, remove_config}

-- A request, and how the disk answers to it.
pub data Request : Type 0 where
  add : Saving → Result IngestError Text → (Text → Result IngestError (Unit {0})) → Request
  remove : Saving → Text → Request

-- An added file's path can stand on a line.
abbrev pub Fits : Request → Type 0
Fits (add saving absolute readable) = (path : Text) → absolute ≡ ok path → IsListed path
Fits (remove saving path) = Unit

accepted-absolute :
    (absolute : Result IngestError Text) (readable : Text → Result IngestError (Unit {0}))
    (path : Text)
    → accepted_file absolute readable ≡ ok path
    → absolute ≡ ok path
unfolding accepted_file
accepted-absolute absolute readable path h =
    let (path', made, rest) = >>=-ok absolute (λ p. readable p >> ok p) h in
    let (_, _, same) = >>=-ok (readable path') (λ _. ok path') rest in made ∙ same

module _ (to_lowercase : Text → Text) where
  abbrev pub after : Option Text → Request → Option Text
  after file (add saving absolute readable) =
      (add_config to_lowercase saving absolute readable file).1
  after file (remove saving path) = (remove_config to_lowercase saving path file).1

  -- The file after requests that come one after the other.
  abbrev pub run : Option Text → List Request → Option Text
  run file [] = file
  run file (r ∷ requests) = run (after file r) requests

  abbrev pub put : PathSet → Result IngestError Text → PathSet
  put paths (ok path) = set_to to_lowercase true path paths
  put paths (err e) = paths

  abbrev pub meant_after : PathSet → Request → PathSet
  meant_after paths (add saving absolute readable) =
      if is_saved saving then put paths (accepted_file absolute readable) else paths
  meant_after paths (remove saving path) =
      if is_saved saving then set_to to_lowercase false path paths else paths

  -- The set of known files: a request that is saved decides about its file, and about no other.
  abbrev pub meant : PathSet → List Request → PathSet
  meant paths [] = paths
  meant paths (r ∷ requests) = meant (meant_after paths r) requests

  known-Views :
      (paths : List Text) (view : PathSet) (path : Text)
      → any_same to_lowercase paths path ≡ true
      → Views to_lowercase paths view
      → Views to_lowercase paths (set_to to_lowercase true path view)
  known-Views paths view path known v = record {
    listed = v.listed;
    apart = v.apart;
    members = λ wanted. elim (Bool-cases (same_path to_lowercase path wanted)) [
      | inl same ↦ sym (any_same-same to_lowercase paths path wanted same) ∙ known ∙ rw same refl
      | inr differs ↦ v.members wanted ∙ rw differs refl
    ];
  }

  kept-Views :
      (saving : Saving) (path : Text) (file : Option Text) (view : PathSet)
      → IsListed path
      → Views to_lowercase (read_paths file) view
      → Views to_lowercase
          (read_paths (keep_file to_lowercase saving file path).1)
          (if is_saved saving then set_to to_lowercase true path view else view)
  unfolding keep_file
  kept-Views saving path file view listed v =
      elim (Bool-cases (any_same to_lowercase (read_paths file) path)) [
        | inl known ↦ rw known (elim (Bool-cases (is_saved saving)) [
          | inl works ↦ rw works (known-Views (read_paths file) view path known v)
          | inr failed ↦ rw failed v
        ])
        | inr new ↦ rw new (
            write-Views to_lowercase saving file _ _ _ v
              (snoc-Views to_lowercase _ _ path listed new v))
      ]

  added-Views :
      (saving : Saving) (absolute : Result IngestError Text)
      (readable : Text → Result IngestError (Unit {0})) (file : Option Text) (view : PathSet)
      → ((path : Text) → absolute ≡ ok path → IsListed path)
      → Views to_lowercase (read_paths file) view
      → Views to_lowercase
          (read_paths (add_config to_lowercase saving absolute readable file).1)
          (meant_after view (add saving absolute readable))
  unfolding add_config
  added-Views saving absolute readable file view fits v =
      elim (Result-cases (accepted_file absolute readable)) [
        | inl (path, accepted) ↦
            rw (accepted, add_config)
              (kept-Views saving path file view
                (fits path (accepted-absolute absolute readable path accepted)) v)
        | inr (e, refused) ↦
            rw (refused, add_config)
              (elim (Bool-cases (is_saved saving)) [
                | inl works ↦ rw works v
                | inr failed ↦ rw failed v
              ])
      ]

  removed-Views :
      (saving : Saving) (path : Text) (file : Option Text) (view : PathSet)
      → Views to_lowercase (read_paths file) view
      → Views to_lowercase
          (read_paths (remove_config to_lowercase saving path file).1)
          (meant_after view (remove saving path))
  unfolding remove_config
  removed-Views saving path file view v =
      write-Views to_lowercase saving file _ _ _ v
        (others-Views to_lowercase (read_paths file) view path v)

  run-Views :
      (requests : List Request) (file : Option Text) (view : PathSet)
      → All Fits requests
      → Views to_lowercase (read_paths file) view
      → Views to_lowercase (read_paths (run file requests)) (meant view requests)
  run-Views [] file view fits v = v
  run-Views (add saving absolute readable ∷ requests) file view (fits, rest) v =
      run-Views requests _ _ rest (added-Views saving absolute readable file view fits v)
  run-Views (remove saving path ∷ requests) file view (fits, rest) v =
      run-Views requests _ _ rest (removed-Views saving path file view v)

-- After any requests to add and to remove configuration files, from no file, the list has the paths
-- of the set that they mean, each once: a file that can be read and is saved is in it until a
-- removal of the same path, however spelled, is saved; requests that fail change nothing. (Every
-- path that is added can stand on a line.)
pub run-meant :
    (to_lowercase : Text → Text) (requests : List Request)
    → All Fits requests
    → ((wanted : Text)
        → any_same to_lowercase (read_paths (run to_lowercase none requests)) wanted
          ≡ meant to_lowercase no_paths requests wanted)
      × AllApart to_lowercase (read_paths (run to_lowercase none requests))
run-meant to_lowercase requests fits =
    let v = run-Views to_lowercase requests none no_paths fits (nothing-Views to_lowercase) in
    (v.members, v.apart)
