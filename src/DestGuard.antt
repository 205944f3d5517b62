-- ===== src/DestGuard.antt =====
-- The guard against links in a destination: crates/rustcopy-core/src/dest_guard.rs. What the system
-- says of a path, and what `walkdir` lists under the destination, are parameters.
pub mod Clear
use rustcopy.Base.{
  String, Bool, true, false, Option, none, some, List, [], ◌∷◌, ◌++◌, Result, ok, err,
  if◌then◌else◌, ◌>>=◌,
}
use rustcopy.Errors.{IngestError, ErrorKind, io, destination_has_link}

pub data Component : Type 0 where
  prefix root_dir : Component
  normal : String → Component

abbrev pub Location : Type 0
Location = List Component

-- Of an entry that is there, whether it is a junction or a link.
pub data Found : Type 0 where
  entry : Bool → Found
  not_there : Found
  unreadable : ErrorKind → Found

abbrev pub Looks : Type 0
Looks = Location → Found

-- What the walk gives: an entry and whether it is a link, or an error.
abbrev pub Listed : Type 0
Listed = Result ErrorKind (Location × Bool)

unfoldable pub find_inside : List Listed → Result ErrorKind (Option Location)
find_inside [] = ok none
find_inside (err e ∷ listed) = err e
find_inside (ok (path, is_link) ∷ listed) =
    let rest = find_inside listed in if is_link then ok (some path) else rest

unfoldable pub find_on_way :
    Looks → List Listed → Location → List Component → Result ErrorKind (Option Location)
find_on_way looks listed current [] = find_inside listed
find_on_way looks listed current (prefix ∷ rest) =
    find_on_way looks listed (current ++ (prefix ∷ [])) rest
find_on_way looks listed current (root_dir ∷ rest) =
    find_on_way looks listed (current ++ (root_dir ∷ [])) rest
find_on_way looks listed current (normal name ∷ rest) =
    let here = current ++ (normal name ∷ []) in
    let below = find_on_way looks listed here rest in
    elim (looks here) [
      | entry true ↦ ok (some here)
      | entry false ↦ below
      | not_there ↦ ok none
      | unreadable e ↦ err e
    ]

unfoldable pub find_link : Looks → List Listed → Location → Result ErrorKind (Option Location)
find_link looks listed dest = find_on_way looks listed [] dest

-- A location printed, for the message.
unfoldable pub ensure_no_links :
    (Location → String) → Looks → List Listed → Location → Result {0, 0} IngestError Unit
ensure_no_links display looks listed dest = elim (find_link looks listed dest) [
  | err e ↦ err (io (display dest) e)
  | ok found ↦ elim found [ none ↦ ok tt | some path ↦ err (destination_has_link (display path)) ]
]
