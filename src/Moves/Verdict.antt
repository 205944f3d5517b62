-- ===== src/Moves/Verdict.antt =====
-- How the plan of a move judges one listed entry.
use rustcopy.Base.{
  ℕ, suc, ◌≡◌, refl, sym, Bool, true, not, ◌||◌, some, Option, none, ap, eq_self, [], ◌∷◌, false,
  ◌∙◌, ◌++◌, Bool-cases, Option-cases, inl, inr, ◌⊎◌, ◌==◌, nat_eq, string_eq, list_eq, eq_of_test,
  arith, length, length-append,
}
use rustcopy.Generations.{RelPath}
use rustcopy.Moves.{
  Disk, Meta, PlannedDelete, MovePlan, KeepReason, symlink_metadata, is_plain_file, same_time, keep,
  kept,
}
use rustcopy.Moves.Planning.{planned, dest_of, judge_copy, plan_entry}
use rustcopy.Moves.CopiedTo.{CopiedTo, dest_of-CopiedTo, CopiedTo-dest_of}

-- On this disk the item's source and its copy are plain files of the planned size, with
-- modification times that count as the same.
pub record Matches (disk : Disk) (item : PlannedDelete) : Type 0 where
  pub original : Meta
  pub copy : Meta
  pub copy_modified : ℕ
  pub original_found : symlink_metadata disk item.source ≡ some original
  pub original_plain : is_plain_file original ≡ true
  pub original_size : original.len ≡ item.size
  pub original_time : original.modified ≡ some item.modified
  pub copy_found : symlink_metadata disk item.dest ≡ some copy
  pub copy_plain : is_plain_file copy ≡ true
  pub copy_size : copy.len ≡ item.size
  pub copy_time : copy.modified ≡ some copy_modified
  pub same : same_time item.modified copy_modified ≡ true

pub kept-keep :
    (plan : MovePlan) (path : RelPath) (reason : KeepReason)
    → kept (keep plan path reason) ≡ suc (kept plan)
unfolding keep
kept-keep plan path KeepReason.missing_in_destination = omega arith
kept-keep plan path KeepReason.different_in_destination = omega arith
kept-keep plan path KeepReason.not_plain_file = omega arith

pub delete-keep :
    (plan : MovePlan) (path : RelPath) (reason : KeepReason)
    → (keep plan path reason).delete ≡ plan.delete
unfolding keep
delete-keep plan path KeepReason.missing_in_destination = refl
delete-keep plan path KeepReason.different_in_destination = refl
delete-keep plan path KeepReason.not_plain_file = refl

-- A listed entry: whether its source is one file, the source, the destination, and the path.
abbrev pub Entry : Type 0
Entry = Bool × RelPath × RelPath × RelPath

-- The item is the entry with a matching copy at its place in the destination.
abbrev pub IsCopied : Disk → Entry → PlannedDelete → Type 0
IsCopied disk (root_is_file, source_root, dest_root, path) item =
    (item.source ≡ path)
    × CopiedTo root_is_file source_root dest_root path item.dest
    × Matches disk item

-- An entry is to be deleted as a copied item, or there is no such item and it is kept.
abbrev pub IsVerdict : Disk → Entry → Option PlannedDelete → Type 0
IsVerdict disk entry (some item) = IsCopied disk entry item
IsVerdict disk entry none = (item : PlannedDelete) → ¬ IsCopied disk entry item

abbrev pub planned_of : (plan : MovePlan) → Disk → Entry → MovePlan
planned_of plan disk (root_is_file, source_root, dest_root, path) =
    plan_entry disk source_root dest_root root_is_file plan path

-- A copied entry is planned for deletion.
pub IsCopied-planned :
    (disk : Disk) (plan : MovePlan) (entry : Entry) (item : PlannedDelete)
    → IsCopied disk entry item
    → planned_of plan disk entry ≡ planned plan item
unfolding plan_entry judge_copy
IsCopied-planned disk plan (root_is_file, source_root, dest_root, path) item (at, to, m) =
    let found : symlink_metadata disk path ≡ some m.original =
      ap (symlink_metadata disk) (sym at) ∙ m.original_found in
    let place = CopiedTo-dest_of root_is_file source_root dest_root path item.dest to in
    let test : (not (is_plain_file m.copy)
          || not (m.copy.len == m.original.len)
          || not (same_time item.modified m.copy_modified))
        ≡ false =
      ground
        (arith, m.copy_plain, m.same, eq_self m.original.len, m.copy_size ∙ sym m.original_size) in
    rw
      (
        found, m.original_plain, place, m.copy_found, m.original_time, m.copy_time, test,
        plan_entry, judge_copy,
      )
      refl
    ∙ ap
        (λ x. planned plan (record {
          source = x;
          dest = item.dest;
          size = m.original.len;
          modified = item.modified;
        }))
        (sym at)
    ∙ ap
        (λ n.
          planned plan
            (record { source = item.source; dest = item.dest; size = n; modified = item.modified }))
        m.original_size

abbrev pub Judged : Disk → MovePlan → Entry → MovePlan → Type 0
Judged disk plan entry after =
    ((reason : KeepReason) × (path : RelPath) × (after ≡ keep plan path reason))
    ⊎ ((item : PlannedDelete) × IsCopied disk entry item × (after ≡ planned plan item))

judge_copy-Judged :
    (disk : Disk) (plan : MovePlan) (root_is_file : Bool)
    (source_root dest_root path dest : RelPath) (meta dest_meta : Meta)
    → CopiedTo root_is_file source_root dest_root path dest
    → symlink_metadata disk path ≡ some meta
    → is_plain_file meta ≡ true
    → symlink_metadata disk dest ≡ some dest_meta
    → Judged disk plan
        (root_is_file, source_root, dest_root, path)
        (judge_copy plan path dest meta dest_meta)
unfolding judge_copy
judge_copy-Judged disk plan root_is_file source_root dest_root path dest meta dest_meta to found
      plain dest_found =
    elim (Option-cases meta.modified) [
      | inl unknown ↦ inl (KeepReason.different_in_destination, path, rw (unknown, judge_copy) refl)
      | inr (m, e) ↦ elim (Option-cases dest_meta.modified) [
        | inl unknown ↦
            inl (KeepReason.different_in_destination, path, rw (e, unknown, judge_copy) refl)
        | inr (d, f) ↦
            elim (Bool-cases (
              not (is_plain_file dest_meta)
              || not (dest_meta.len == meta.len)
              || not (same_time m d))) [
                | inl differs ↦
                    inl (
                      KeepReason.different_in_destination,
                      path,
                      rw (e, f, differs, judge_copy) refl,
                    )
                | inr matches ↦ inr (
                  record { source = path; dest = dest; size = meta.len; modified = m },
                  (
                    refl,
                    to,
                    record {
                      original = meta;
                      copy = dest_meta;
                      copy_modified = d;
                      original_found = found;
                      original_plain = plain;
                      original_size = refl;
                      original_time = e;
                      copy_found = dest_found;
                      copy_plain = ground (arith, matches);
                      copy_size = eq_of_test dest_meta.len meta.len (ground (arith, matches));
                      copy_time = f;
                      same = ground (arith, matches);
                    },
                  ),
                  rw (e, f, matches, judge_copy) refl,
                )
              ]
      ]
    ]

pub plan_entry-Judged :
    (disk : Disk) (source_root dest_root : RelPath) (root_is_file : Bool) (plan : MovePlan)
    (path : RelPath)
    → Judged disk plan
        (root_is_file, source_root, dest_root, path)
        (plan_entry disk source_root dest_root root_is_file plan path)
unfolding plan_entry
plan_entry-Judged disk source_root dest_root root_is_file plan path =
    elim (Option-cases (symlink_metadata disk path)) [
      | inl absent ↦ inl (KeepReason.not_plain_file, path, rw (absent, plan_entry) refl)
      | inr (meta, e) ↦ elim (Bool-cases (is_plain_file meta)) [
        | inr special ↦ inl (KeepReason.not_plain_file, path, rw (e, special, plan_entry) refl)
        | inl plain ↦ elim (Option-cases (dest_of root_is_file source_root dest_root path)) [
          | inl outside ↦
              inl (KeepReason.not_plain_file, path, rw (e, plain, outside, plan_entry) refl)
          | inr (dest, d) ↦ elim (Option-cases (symlink_metadata disk dest)) [
            | inl absent ↦
                inl (
                  KeepReason.missing_in_destination,
                  path,
                  rw (e, plain, d, absent, plan_entry) refl,
                )
            | inr (dest_meta, f) ↦
                rw (e, plain, d, f, plan_entry)
                  (judge_copy-Judged disk plan root_is_file source_root dest_root path dest meta
                    dest_meta (dest_of-CopiedTo root_is_file source_root dest_root path dest d) e
                    plain f)
          ]
        ]
      ]
    ]

pub planned_ne_keep :
    (plan : MovePlan) (item : PlannedDelete) (path : RelPath) (reason : KeepReason)
    → keep plan path reason ≡ planned plan item
    → ⊥
planned_ne_keep plan item path reason e =
    let lists : plan.delete ≡ plan.delete ++ (item ∷ []) =
      sym (delete-keep plan path reason) ∙ ap (λ (p : MovePlan). p.delete) e in
    absurd (omega (arith, ap length lists, length-append plan.delete (item ∷ [])))
