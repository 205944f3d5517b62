-- ===== src/Moves/Folders.antt =====
-- Nothing but an empty folder goes with the empty folders.
use rustcopy.Base.{
  suc, ◌≡◌, ◌∙◌, refl, sym, ap, true, false, none, some, List, [], ◌∷◌, Bool-cases, Option-cases,
  inl, inr, ◌⊎◌, ◌==◌, nat_eq, string_eq, list_eq, eq_of_test, arith, if◌then◌else◌,
}
use rustcopy.Generations.{RelPath}
use rustcopy.Moves.{
  Disk, Meta, symlink_metadata, removed, is_plain_file, is_file, is_dir, FileType, Walk,
}
use rustcopy.Moves.Deleting.{
  dedup, MoveOutcome, Denied, remove_dir, remove_empty_folders, remove_roots, has_children,
}

pub symlink_metadata-removed :
    (disk : Disk) (q p : RelPath)
    → (q == p) ≡ false
    → symlink_metadata (removed disk q) p ≡ symlink_metadata disk p
unfolding symlink_metadata removed
symlink_metadata-removed [] q p h = refl
symlink_metadata-removed ((r, meta) ∷ disk) q p h =
    let ih = symlink_metadata-removed disk q p h in
    elim (Bool-cases (r == q)) [
      | inl same ↦ rw (same, ap (λ x. x == p) (eq_of_test r q same) ∙ h) ih
      | inr other ↦ rw other (λ i. if r == p then some meta else ih i)
    ]

pub some_inj {ℓ} : {A : Type ℓ} (a b : A) → some a ≡ some b → a ≡ b
some_inj a b h = cc

-- Nothing but a folder goes with the empty folders.
remove_dir-cases :
    (denied : Denied) (disk : Disk) (folder : RelPath)
    → (remove_dir denied disk folder ≡ none)
      ⊎ ((m : Meta) × (symlink_metadata disk folder ≡ some m)
          × (is_dir m.file_type ≡ true)
          × (remove_dir denied disk folder ≡ some (removed disk folder)))
unfolding remove_dir
remove_dir-cases denied disk folder = elim (Option-cases (symlink_metadata disk folder)) [
  | inl absent ↦ inl (rw (absent, remove_dir) refl)
  | inr (m, e) ↦ elim (Option-cases (denied folder)) [
    | inr (why, d) ↦ inl (rw (e, d, remove_dir) refl)
    | inl free ↦ elim (Bool-cases (is_dir m.file_type)) [
      | inr plain ↦ inl (rw (e, free, remove_dir) (simp plain))
      | inl a_dir ↦ elim (Bool-cases (has_children disk folder)) [
        | inl full ↦ inl (rw (e, free, full, remove_dir) (simp a_dir))
        | inr empty ↦ inr (m, e, a_dir, rw (e, free, empty, remove_dir) (simp a_dir))
      ]
    ]
  ]
]

folder-apart :
    (disk : Disk) (folder path : RelPath) (m meta : Meta)
    → is_dir m.file_type ≡ true
    → is_dir meta.file_type ≡ false
    → symlink_metadata disk folder ≡ some m
    → symlink_metadata disk path ≡ some meta
    → (folder == path) ≡ false
folder-apart disk folder path m meta a_dir not_dir e known = elim (Bool-cases (folder == path)) [
  | inr other ↦ other
  | inl same ↦
      let one =
        some_inj m meta
          (sym e ∙ ap (symlink_metadata disk) (eq_of_test folder path same) ∙ known) in
      cc (a_dir, not_dir, one)
]

folders_keep :
    (denied : Denied) (state : Disk × MoveOutcome) (folders : List RelPath) (path : RelPath)
    (meta : Meta)
    → is_dir meta.file_type ≡ false
    → symlink_metadata state.0 path ≡ some meta
    → symlink_metadata (remove_empty_folders denied state folders).0 path ≡ some meta
unfolding remove_empty_folders
folders_keep denied state [] path meta not_dir known = known
folders_keep denied (disk, outcome) (folder ∷ folders) path meta not_dir known =
    elim (remove_dir-cases denied disk folder) [
      | inl stays ↦
          rw (stays, remove_empty_folders)
            (folders_keep denied (disk, outcome) folders path meta not_dir known)
      | inr (m, e, a_dir, gone) ↦
          rw (gone, remove_empty_folders)
            (folders_keep denied
              (
                removed disk folder,
                record outcome { folders_removed = suc outcome.folders_removed },
              )
              folders path meta not_dir
              (symlink_metadata-removed disk folder path
                  (folder-apart disk folder path m meta a_dir not_dir e known)
                ∙ known))
    ]

pub roots_keep :
    (denied : Denied) (walk_folders : Disk → Walk) (state : Disk × MoveOutcome)
    (roots : List RelPath) (path : RelPath) (meta : Meta)
    → is_dir meta.file_type ≡ false
    → symlink_metadata state.0 path ≡ some meta
    → symlink_metadata (remove_roots denied walk_folders state roots).0 path ≡ some meta
unfolding remove_roots
roots_keep denied walk_folders state [] path meta not_dir known = known
roots_keep denied walk_folders state (root ∷ roots) path meta not_dir known =
    roots_keep denied walk_folders
      (remove_empty_folders denied state (dedup (walk_folders state.0 root))) roots path meta
      not_dir
      (folders_keep denied state (dedup (walk_folders state.0 root)) path meta not_dir known)

pub plain-not_dir : (meta : Meta) → is_plain_file meta ≡ true → is_dir meta.file_type ≡ false
unfolding is_plain_file
plain-not_dir meta h = is_file-not_dir meta.file_type (ground (arith, h))
  where
    is_file-not_dir : (t : FileType) → is_file t ≡ true → is_dir t ≡ false
    is_file-not_dir FileType.file h = refl
    is_file-not_dir FileType.dir h = cc
    is_file-not_dir FileType.symlink h = refl
    is_file-not_dir FileType.other h = refl
