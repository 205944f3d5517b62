-- ===== src/Moves/Execute.antt =====
-- What a move may take away from the disk, and what it never does.
use rustcopy.Base.{
  ◌≡◌, ◌∙◌, refl, sym, ap, Bool, true, false, ◌&&◌, Option, none, some, List, [], ◌∷◌, All,
  Bool-cases, Option-cases, inl, inr, ◌⊎◌, ◌==◌, nat_eq, string_eq, list_eq, eq_of_test, arith,
}
use rustcopy.Generations.{RelPath}
use rustcopy.Safety.{SafetyLevel, can_move, Confirmation, is_confirmed}
use rustcopy.Moves.{
  Disk, Meta, PlannedDelete, MovePlan, symlink_metadata, removed, is_plain_file, is_dir, Walk,
  require_level,
}
use rustcopy.Moves.Deleting.{
  is_ok_and, MoveOutcome, no_outcome, Denied, unchanged, copy_still_there, execute_item,
  execute_items, remove_roots, execute_move,
}
use rustcopy.Moves.Folders.{symlink_metadata-removed, some_inj, roots_keep, plain-not_dir}

is_ok_and-some :
    (test : Meta → Bool) (o : Option Meta)
    → is_ok_and test o ≡ true
    → (meta : Meta) × (o ≡ some meta) × (test meta ≡ true)
is_ok_and-some test none h = cc
is_ok_and-some test (some meta) h = (meta, refl, h)

-- The disk has the copy of a planned item, as large as the file it is the copy of.
pub record CopyStays (disk : Disk) (item : PlannedDelete) (meta : Meta) : Type 0 where
  pub copy : Meta
  pub found : symlink_metadata disk item.dest ≡ some copy
  pub plain : is_plain_file copy ≡ true
  pub same_len : copy.len ≡ meta.len

-- What an item's guards have seen.
guards :
    (disk : Disk) (item : PlannedDelete) (meta : Meta)
    → symlink_metadata disk item.source ≡ some meta
    → unchanged disk item ≡ true
    → copy_still_there disk item ≡ true
    → CopyStays disk item meta
unfolding unchanged copy_still_there
guards disk item meta known u c =
    let (copy, found, is_copy) = is_ok_and-some _ (symlink_metadata disk item.dest) c in
    let (same, at, is_same) = is_ok_and-some _ (symlink_metadata disk item.source) u in
    record {
      copy = copy;
      found = found;
      plain = ground (arith, is_copy);
      same_len =
          eq_of_test copy.len item.size (ground (arith, is_copy))
          ∙ sym (eq_of_test same.len item.size (ground (arith, is_same)))
          ∙ ap (λ (m : Meta). m.len) (some_inj same meta (sym at ∙ known));
    }

-- An item's step leaves the disk alone, or it takes away the source that it has a copy of.
execute_item-cases :
    (denied : Denied) (disk : Disk) (outcome : MoveOutcome) (item : PlannedDelete)
    → ((execute_item denied (disk, outcome) item).0 ≡ disk)
      ⊎ ((unchanged disk item ≡ true)
          × (copy_still_there disk item ≡ true)
          × ((execute_item denied (disk, outcome) item).0 ≡ removed disk item.source))
unfolding execute_item
execute_item-cases denied disk outcome item = elim (Bool-cases (unchanged disk item)) [
  | inr changed ↦ inl (rw (changed, execute_item) refl)
  | inl u ↦ elim (Bool-cases (copy_still_there disk item)) [
    | inr gone ↦ inl (rw (u, gone, execute_item) refl)
    | inl c ↦ elim (Option-cases (denied item.source)) [
      | inl free ↦ inr (u, c, rw (u, c, free, execute_item) refl)
      | inr (m, why) ↦ inl (rw (u, c, why, execute_item) refl)
    ]
  ]
]

abbrev pub Sources : List PlannedDelete → RelPath → Type 0
Sources items path = All (λ item. (item.source == path) ≡ false) items

-- No copy is itself a source that is still to be deleted.
abbrev pub CopiesApart : List PlannedDelete → Type 0
CopiesApart [] = Unit
CopiesApart (item ∷ items) = Sources (item ∷ items) item.dest × CopiesApart items

abbrev pub Planned : PlannedDelete → List PlannedDelete → Type 0
Planned item [] = ⊥
Planned item (x ∷ items) = (x ≡ item) ⊎ Planned item items

untouched-item :
    (denied : Denied) (disk : Disk) (outcome : MoveOutcome) (item : PlannedDelete) (path : RelPath)
    → (item.source == path) ≡ false
    → symlink_metadata (execute_item denied (disk, outcome) item).0 path
      ≡ symlink_metadata disk path
untouched-item denied disk outcome item path h =
    elim (execute_item-cases denied disk outcome item) [
      | inl e ↦ ap (λ d. symlink_metadata d path) e
      | inr (u, c, e) ↦
          ap (λ d. symlink_metadata d path) e ∙ symlink_metadata-removed disk item.source path h
    ]

untouched :
    (denied : Denied) (state : Disk × MoveOutcome) (items : List PlannedDelete) (path : RelPath)
    → Sources items path
    → symlink_metadata (execute_items denied state items).0 path ≡ symlink_metadata state.0 path
unfolding execute_items
untouched denied state [] path h = refl
untouched denied (disk, outcome) (item ∷ items) path (a, h) =
    untouched denied (execute_item denied (disk, outcome) item) items path h
    ∙ untouched-item denied disk outcome item path a

abbrev pub Kept : Disk → List PlannedDelete → RelPath → Meta → Type 0
Kept disk items path meta =
    (symlink_metadata disk path ≡ some meta)
    ⊎ ((item : PlannedDelete) × Planned item items
        × (item.source ≡ path)
        × CopyStays disk item meta)

Kept-later :
    (disk : Disk) (item : PlannedDelete) (items : List PlannedDelete) (path : RelPath) (meta : Meta)
    → Kept disk items path meta
    → Kept disk (item ∷ items) path meta
Kept-later disk item items path meta (inl known) = inl known
Kept-later disk item items path meta (inr (x, among, is_source, stays)) =
    inr (x, inr among, is_source, stays)

items_keep :
    (denied : Denied) (state : Disk × MoveOutcome) (items : List PlannedDelete) (path : RelPath)
    (meta : Meta)
    → CopiesApart items
    → symlink_metadata state.0 path ≡ some meta
    → Kept (execute_items denied state items).0 items path meta
unfolding execute_items
items_keep denied state [] path meta apart known = inl known
items_keep denied (disk, outcome) (item ∷ items) path meta ((here, later), apart) known =
    let state = execute_item denied (disk, outcome) item in
    let after = (execute_items denied state items).0 in
    elim (Bool-cases (item.source == path)) [
      | inr other ↦ Kept-later after item items path meta (
          items_keep denied state items path meta apart
            (untouched-item denied disk outcome item path other ∙ known))
      | inl same ↦ elim (execute_item-cases denied disk outcome item) [
        | inl e ↦ Kept-later after item items path meta (
            items_keep denied state items path meta apart
              (ap (λ d. symlink_metadata d path) e ∙ known))
        | inr (u, c, e) ↦
            let at_source = ap (symlink_metadata disk) (eq_of_test item.source path same) ∙ known in
            let stays = guards disk item meta at_source u c in
            inr (
              item,
              inl refl,
              eq_of_test item.source path same,
              record {
                copy = stays.copy;
                found =
                    untouched denied state items item.dest later
                    ∙ untouched-item denied disk outcome item item.dest here
                    ∙ stays.found;
                plain = stays.plain;
                same_len = stays.same_len;
              },
            )
      ]
    ]

Kept-roots :
    (denied : Denied) (walk_folders : Disk → Walk) (state : Disk × MoveOutcome)
    (roots : List RelPath) (items : List PlannedDelete) (path : RelPath) (meta : Meta)
    → is_dir meta.file_type ≡ false
    → Kept state.0 items path meta
    → Kept (remove_roots denied walk_folders state roots).0 items path meta
Kept-roots denied walk_folders state roots items path meta not_dir (inl known) =
    inl (roots_keep denied walk_folders state roots path meta not_dir known)
Kept-roots denied walk_folders state roots items path meta not_dir
      (inr (item, among, is_source, stays)) =
    inr (
      item,
      among,
      is_source,
      record {
        copy = stays.copy;
        found =
            roots_keep denied walk_folders state roots item.dest stays.copy
              (plain-not_dir stays.copy stays.plain) stays.found;
        plain = stays.plain;
        same_len = stays.same_len;
      },
    )

-- Whatever is on the disk and not a folder is still there after a move, as it was; or the plan
-- names it, and its copy, a plain file of the same length, is on the disk at the destination that
-- the plan gives. (In the plan, no copy is a source that is still to be deleted.) A move that the
-- level does not allow or that is not confirmed leaves the disk alone.
pub execute_move_lem :
    (denied : Denied) (walk_folders : Disk → Walk) (disk : Disk) (level : SafetyLevel)
    (plan : MovePlan) (c : Confirmation) (path : RelPath) (meta : Meta)
    → CopiesApart plan.delete
    → symlink_metadata disk path ≡ some meta
    → is_dir meta.file_type ≡ false
    → Kept (execute_move denied walk_folders disk level plan c).0 plan.delete path meta
      × (((can_move level && is_confirmed c) ≡ true)
          ⊎ ((execute_move denied walk_folders disk level plan c).0 ≡ disk))
unfolding execute_move require_level
execute_move_lem denied walk_folders disk level plan c path meta apart known not_dir =
    elim (Bool-cases (can_move level)) [
      | inr low ↦
          let same : ((execute_move denied walk_folders disk level plan c).0 ≡ disk) =
            rw (low, execute_move) refl in
          (inl (ap (λ d. symlink_metadata d path) same ∙ known), inr same)
      | inl may ↦ elim (Bool-cases (is_confirmed c)) [
        | inr unconfirmed ↦
            let same : ((execute_move denied walk_folders disk level plan c).0 ≡ disk) =
              rw (may, unconfirmed, execute_move) refl in
            (inl (ap (λ d. symlink_metadata d path) same ∙ known), inr same)
        | inl agreed ↦ (
          rw (may, agreed, execute_move)
              (Kept-roots denied walk_folders (execute_items denied (disk, no_outcome) plan.delete)
                plan.roots plan.delete path meta not_dir
                (items_keep denied (disk, no_outcome) plan.delete path meta apart known)),
          inl (ground (arith, may, agreed)),
        )
      ]
    ]
