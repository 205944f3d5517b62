-- ===== src/Suspended/Set.antt =====
-- Whatever is suspended and reactivated, the file stands for the set that the requests describe.
use rustcopy.Base.{
  ◌≡◌, refl, ◌∙◌, Bool, true, false, Option, none, List, [], ◌∷◌, ◌++◌, arith, if◌then◌else◌,
  eq_self, All,
}
use rustcopy.Text.{Text}
use rustcopy.PathList.{
  Saving, is_saved, read_paths, any_same, others, AllApart, PathSet, no_paths, set_to,
}
use rustcopy.PathList.Rendered.{IsListed}
use rustcopy.PathList.Members.{any_same-others}
use rustcopy.PathList.Views.{Views, nothing-Views, others-Views, snoc-Views, write-Views}
use rustcopy.Suspended.{contains, set}

-- A request, and how the disk answers to it.
pub record Request : Type 0 where
  pub config : Text
  pub suspended : Bool
  pub saving : Saving

module _ (to_lowercase : Text → Text) where
  -- The file after requests that come one after the other.
  abbrev pub run : Option Text → List Request → Option Text
  run file [] = file
  run file (r ∷ requests) = run (set to_lowercase r.saving file r.config r.suspended).1 requests

  -- The set of suspended tasks: a request that is saved decides about its task, and about no other.
  abbrev pub meant : PathSet → List Request → PathSet
  meant paths [] = paths
  meant paths (r ∷ requests) =
      meant (if is_saved r.saving then set_to to_lowercase r.suspended r.config paths else paths)
        requests

  taken_out :
      (paths : List Text) (path : Text)
      → any_same to_lowercase (others to_lowercase paths path) path ≡ false
  taken_out paths path =
      any_same-others to_lowercase paths path path ∙ rw (eq_self (to_lowercase path)) refl

  changed-Views :
      (paths : List Text) (view : PathSet) (path : Text) (suspended : Bool)
      → IsListed path
      → Views to_lowercase paths view
      → Views to_lowercase
          (if suspended
            then others to_lowercase paths path ++ (path ∷ [])
            else others to_lowercase paths path)
          (set_to to_lowercase suspended path view)
  changed-Views paths view path false listed v = others-Views to_lowercase paths view path v
  changed-Views paths view path true listed v =
      let taken = others-Views to_lowercase paths view path v in
      let put = snoc-Views to_lowercase _ _ path listed (taken_out paths path) taken in
      record {
        listed = put.listed;
        apart = put.apart;
        members = λ wanted. put.members wanted ∙ ground arith;
      }

  run-Views :
      (requests : List Request) (file : Option Text) (view : PathSet)
      → All (λ r. IsListed r.config) requests
      → Views to_lowercase (read_paths file) view
      → Views to_lowercase (read_paths (run file requests)) (meant view requests)
  unfolding set
  run-Views [] file view listed v = v
  run-Views (r ∷ requests) file view (listed, rest) v = run-Views requests _ _ rest (
      write-Views to_lowercase r.saving file _ _ _ v
        (changed-Views (read_paths file) view r.config r.suspended listed v))

-- After any requests to suspend and to reactivate, from no file, `contains` answers as the set that
-- they mean: the last request that was saved for a task, however its path is spelled, decides about
-- it, and requests that fail change nothing; and the file never has a task twice. (Every path can
-- stand on a line.)
pub contains-meant :
    (to_lowercase : Text → Text) (requests : List Request)
    → All (λ r. IsListed r.config) requests
    → ((wanted : Text)
        → contains to_lowercase (run to_lowercase none requests) wanted
          ≡ meant to_lowercase no_paths requests wanted)
      × AllApart to_lowercase (read_paths (run to_lowercase none requests))
unfolding contains
contains-meant to_lowercase requests listed =
    let v = run-Views to_lowercase requests none no_paths listed (nothing-Views to_lowercase) in
    (v.members, v.apart)
