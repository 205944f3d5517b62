-- ===== src/Moves/Plan.antt =====
-- What a plan of a move lists for deletion, and that it accounts for every file.
use rustcopy.Base.{
  ℕ, suc, ◌+◌, ◌≡◌, refl, sym, Bool, true, some, Option, none, ap, append-nil, append_assoc, map,
  List, [], ◌∷◌, ◌∙◌, ◌++◌, inl, inr, nat_eq, string_eq, list_eq, arith, ok,
}
use rustcopy.Generations.{RelPath}
use rustcopy.Safety.{SafetyLevel, can_move}
use rustcopy.Moves.{
  Disk, PlannedDelete, MovePlan, KeepReason, VerifiedCopy, Walk, keep, kept, require_level,
  empty_plan,
}
use rustcopy.Moves.Planning.{plan_entry, plan_entries, plan_pairs, plan_move}
use rustcopy.Moves.Verdict.{
  Entry, IsVerdict, planned_of, IsCopied-planned, kept-keep, delete-keep, plan_entry-Judged,
  planned_ne_keep,
}

abbrev pub collected : List (Option PlannedDelete) → List PlannedDelete
collected [] = []
collected (none ∷ verdicts) = collected verdicts
collected (some item ∷ verdicts) = item ∷ collected verdicts

abbrev pub kept_of : List (Option PlannedDelete) → ℕ
kept_of [] = 0
kept_of (none ∷ verdicts) = suc (kept_of verdicts)
kept_of (some item ∷ verdicts) = kept_of verdicts

abbrev pub bytes_of : List (Option PlannedDelete) → ℕ
bytes_of [] = 0
bytes_of (none ∷ verdicts) = bytes_of verdicts
bytes_of (some item ∷ verdicts) = item.size + bytes_of verdicts

-- Each entry has its verdict.
abbrev pub Verdicts : Disk → List Entry → List (Option PlannedDelete) → Type 0
Verdicts disk [] [] = Unit
Verdicts disk [] (v ∷ verdicts) = ⊥
Verdicts disk (entry ∷ entries) [] = ⊥
Verdicts disk (entry ∷ entries) (v ∷ verdicts) =
    IsVerdict disk entry v × Verdicts disk entries verdicts

-- What a plan has more than an earlier one.
record Adds (before after : MovePlan) (verdicts : List (Option PlannedDelete)) : Type 0 where
  delete : after.delete ≡ before.delete ++ collected verdicts
  keeps : kept after ≡ kept before + kept_of verdicts
  bytes : after.delete_bytes ≡ before.delete_bytes + bytes_of verdicts

bytes-keep :
    (plan : MovePlan) (path : RelPath) (reason : KeepReason)
    → (keep plan path reason).delete_bytes ≡ plan.delete_bytes
unfolding keep
bytes-keep plan path KeepReason.missing_in_destination = refl
bytes-keep plan path KeepReason.different_in_destination = refl
bytes-keep plan path KeepReason.not_plain_file = refl

-- The verdict of one entry, with what it adds to the plan.
entry-IsVerdict :
    (disk : Disk) (plan : MovePlan) (entry : Entry)
    → (v : Option PlannedDelete) × IsVerdict disk entry v
      × Adds plan (planned_of plan disk entry) (v ∷ [])
entry-IsVerdict disk plan (root_is_file, source_root, dest_root, path) =
    let entry : Entry = (root_is_file, source_root, dest_root, path) in
    elim (plan_entry-Judged disk source_root dest_root root_is_file plan path) [
      | inl (reason, at, e) ↦ (
        none,
        λ item copied.
            planned_ne_keep plan item at reason
              (sym e ∙ IsCopied-planned disk plan entry item copied),
        record {
          delete =
              ap (λ (p : MovePlan). p.delete) e
              ∙ delete-keep plan at reason
              ∙ sym (append-nil plan.delete);
          keeps = ap kept e ∙ kept-keep plan at reason ∙ omega arith;
          bytes = ap (λ (p : MovePlan). p.delete_bytes) e ∙ bytes-keep plan at reason ∙ omega arith;
        },
      )
      | inr (item, copied, e) ↦ (
        some item,
        copied,
        record {
          delete = ap (λ (p : MovePlan). p.delete) e;
          keeps = ap kept e ∙ omega arith;
          bytes = ap (λ (p : MovePlan). p.delete_bytes) e ∙ omega arith;
        },
      )
    ]

collected-append :
    (xs ys : List (Option PlannedDelete)) → collected (xs ++ ys) ≡ collected xs ++ collected ys
collected-append [] ys = refl
collected-append (none ∷ xs) ys = collected-append xs ys
collected-append (some item ∷ xs) ys = ap (λ l. item ∷ l) (collected-append xs ys)

kept_of-append :
    (xs ys : List (Option PlannedDelete)) → kept_of (xs ++ ys) ≡ kept_of xs + kept_of ys
kept_of-append [] ys = omega arith
kept_of-append (none ∷ xs) ys = omega (arith, kept_of-append xs ys)
kept_of-append (some item ∷ xs) ys = kept_of-append xs ys

bytes_of-append :
    (xs ys : List (Option PlannedDelete)) → bytes_of (xs ++ ys) ≡ bytes_of xs + bytes_of ys
bytes_of-append [] ys = omega arith
bytes_of-append (none ∷ xs) ys = bytes_of-append xs ys
bytes_of-append (some item ∷ xs) ys = omega (arith, bytes_of-append xs ys)

Adds-append :
    (p q r : MovePlan) (xs ys : List (Option PlannedDelete))
    → Adds p q xs
    → Adds q r ys
    → Adds p r (xs ++ ys)
Adds-append p q r xs ys a b = record {
  delete =
      b.delete
      ∙ ap (λ l. l ++ collected ys) a.delete
      ∙ append_assoc p.delete (collected xs) (collected ys)
      ∙ ap (λ l. p.delete ++ l) (sym (collected-append xs ys));
  keeps = omega (arith, a.keeps, b.keeps, kept_of-append xs ys);
  bytes = omega (arith, a.bytes, b.bytes, bytes_of-append xs ys);
}

Verdicts-append :
    (disk : Disk) (es fs : List Entry) (vs ws : List (Option PlannedDelete))
    → Verdicts disk es vs
    → Verdicts disk fs ws
    → Verdicts disk (es ++ fs) (vs ++ ws)
Verdicts-append disk [] fs [] ws h k = k
Verdicts-append disk [] fs (v ∷ vs) ws h k = absurd h
Verdicts-append disk (e ∷ es) fs [] ws h k = absurd h
Verdicts-append disk (e ∷ es) fs (v ∷ vs) ws (a, h) k = (a, Verdicts-append disk es fs vs ws h k)

abbrev Judges : Disk → List Entry → MovePlan → MovePlan → Type 0
Judges disk entries before after =
    (verdicts : List (Option PlannedDelete)) × Verdicts disk entries verdicts
    × Adds before after verdicts

Judges-nothing : (disk : Disk) (plan : MovePlan) → Judges disk [] plan plan
Judges-nothing disk plan = (
  [],
  tt,
  record { delete = sym (append-nil plan.delete); keeps = omega arith; bytes = omega arith },
)

Judges-append :
    (disk : Disk) (es fs : List Entry) (p q r : MovePlan)
    → Judges disk es p q
    → Judges disk fs q r
    → Judges disk (es ++ fs) p r
Judges-append disk es fs p q r (vs, h, a) (ws, k, b) =
    (vs ++ ws, Verdicts-append disk es fs vs ws h k, Adds-append p q r vs ws a b)

-- The entries that the walk of one source lists.
abbrev pub entries_under : Bool → RelPath → RelPath → List RelPath → List Entry
entries_under root_is_file source_root dest_root paths =
    map (λ path. (root_is_file, source_root, dest_root, path)) paths

Judges-entries :
    (disk : Disk) (source_root dest_root : RelPath) (root_is_file : Bool) (plan : MovePlan)
    (paths : List RelPath)
    → Judges disk
        (entries_under root_is_file source_root dest_root paths)
        plan
        (plan_entries disk source_root dest_root root_is_file plan paths)
unfolding plan_entries
Judges-entries disk source_root dest_root root_is_file plan [] = Judges-nothing disk plan
Judges-entries disk source_root dest_root root_is_file plan (path ∷ paths) =
    let after = plan_entry disk source_root dest_root root_is_file plan path in
    let entry : Entry = (root_is_file, source_root, dest_root, path) in
    let (v, verdict, adds) = entry-IsVerdict disk plan entry in
    Judges-append disk (entry ∷ []) (entries_under root_is_file source_root dest_root paths) plan
      after (plan_entries disk source_root dest_root root_is_file after paths)
      (v ∷ [], (verdict, tt), adds)
      (Judges-entries disk source_root dest_root root_is_file after paths)

-- The entries that the walks of the pairs list, in order.
abbrev pub entries_of : Walk → (RelPath → Bool) → List (RelPath × RelPath) → List Entry
entries_of walk follows_to_file [] = []
entries_of walk follows_to_file ((source_root, dest_root) ∷ pairs) =
    entries_under (follows_to_file source_root) source_root dest_root (walk source_root)
    ++ entries_of walk follows_to_file pairs

Judges-pairs :
    (disk : Disk) (walk : Walk) (follows_to_file : RelPath → Bool) (plan : MovePlan)
    (pairs : List (RelPath × RelPath))
    → Judges disk
        (entries_of walk follows_to_file pairs)
        plan
        (plan_pairs disk walk follows_to_file plan pairs)
unfolding plan_pairs
Judges-pairs disk walk follows_to_file plan [] = Judges-nothing disk plan
Judges-pairs disk walk follows_to_file plan ((source_root, dest_root) ∷ pairs) =
    let rooted : MovePlan = record plan { roots = plan.roots ++ (source_root ∷ []) } in
    let is_file = follows_to_file source_root in
    let after = plan_entries disk source_root dest_root is_file rooted (walk source_root) in
    let (vs, h, a) = Judges-entries disk source_root dest_root is_file rooted (walk source_root) in
    Judges-append disk (entries_under is_file source_root dest_root (walk source_root)) _ plan after
      (plan_pairs disk walk follows_to_file after pairs)
      (vs, h, record { delete = a.delete; keeps = a.keeps; bytes = a.bytes })
      (Judges-pairs disk walk follows_to_file after pairs)

-- At a level that allows a move the plan is made. Each entry that the walks list is judged: it is
-- listed for deletion, in order, if it is a plain file whose copy is at its place in the destination
-- (below it as the file is below its source, or by its name if the source is that file): a plain file
-- of the same length, with the same time within the tolerance; and it is counted as kept if there is
-- no such copy. The bytes are those of the listed files.
pub plan_move_lem :
    (disk : Disk) (walk : Walk) (follows_to_file : RelPath → Bool) (level : SafetyLevel)
    (pairs : List (RelPath × RelPath)) (proof : VerifiedCopy)
    → can_move level ≡ true
    → (plan : MovePlan) × (verdicts : List (Option PlannedDelete)) × (plan_move disk walk
          follows_to_file level pairs proof
        ≡ ok plan)
      × Verdicts disk (entries_of walk follows_to_file pairs) verdicts
      × (plan.delete ≡ collected verdicts)
      × (kept plan ≡ kept_of verdicts)
      × (plan.delete_bytes ≡ bytes_of verdicts)
unfolding plan_move require_level
plan_move_lem disk walk follows_to_file level pairs proof may =
    let (verdicts, judged, adds) = Judges-pairs disk walk follows_to_file empty_plan pairs in
    (
      plan_pairs disk walk follows_to_file empty_plan pairs,
      verdicts,
      rw (may, require_level) refl,
      judged,
      adds.delete,
      adds.keeps ∙ omega arith,
      adds.bytes ∙ omega arith,
    )
