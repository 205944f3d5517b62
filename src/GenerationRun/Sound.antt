-- ===== src/GenerationRun/Sound.antt =====
-- Whatever a run meets, the history that it leaves is sound.
use rustcopy.Base.{
  ℕ, ◌<◌, ◌≡◌, ◌∙◌, refl, sym, ap, subst, String, Bool, true, false, Option, none, some, List, [],
  ◌∷◌, ◌++◌, map, length, keep_if, contains, string_eq, All, Bool-cases, Result-cases, inl, inr,
  eq_self, ok, err, Result,
}
use rustcopy.Errors.{IngestError}
use rustcopy.Generations.{
  BackupType, full, incremental, differential, ScannedFile, Generation, latest, latest_full,
  verdict, push, changed_since,
}
use rustcopy.Generations.Changes.{NodupPaths}
use rustcopy.Generations.Retention.{not_later}
use rustcopy.GenerationRun.{
  Backup, Run, RunError, no_prior, no_prior_full, ingest, Reference, whole, against, found_or,
  folder_in, reference_for, read_reference, files_to_copy, copy_one, landed, failed, checked,
  generation_of, after_copy, after_check, after_links, with_folder, execute,
}
use rustcopy.GenerationRun.Made.{CopiedAs}
use rustcopy.GenerationRun.Keeps.{
  history, IsFresh, Made-folder, CopiedAs-reference, read_reference-found,
}
use rustcopy.GenerationRun.Live.{Lives-snoc}
use rustcopy.GenerationRun.Purging.{
  IsSound, lost_ids, lost_by, Kept, no_loss, unless_failed-Kept, finish_prune-Kept,
}

-- The file has its scanned length when it is copied.
abbrev pub IsSteady : (ScannedFile → ℕ) → ScannedFile → Type 0
IsSteady length_now f = length_now f ≡ f.size_bytes

-- A scan lists no path twice, its files do not change their length until they are copied, a set is
-- walked through its members, and retention keeps at least one cycle.
pub record IsRequest (r : Run) : Type 0 where
  pub nodup : NodupPaths r.inventory
  pub steady : All (IsSteady r.length_now) r.inventory
  pub members :
      (ids : List String) (j : String) → contains (r.purge.hash_order ids) j ≡ contains ids j
  pub keeps : (k : ℕ) → r.keep_generations ≡ some k → 0 < k

All-keep_if :
    (P : ScannedFile → Type 0) (q : ScannedFile → Bool) (fs : List ScannedFile)
    → All P fs
    → All P (keep_if q fs)
All-keep_if P q [] h = tt
All-keep_if P q (f ∷ fs) (a, h) = elim (Bool-cases (q f)) [
  | inl yes_it ↦ rw yes_it (a, All-keep_if P q fs h)
  | inr no_it ↦ rw no_it (All-keep_if P q fs h)
]

All-files_to_copy :
    (P : ScannedFile → Type 0) (reference : Reference) (fs : List ScannedFile)
    → All P fs
    → All P (files_to_copy reference fs)
unfolding changed_since
All-files_to_copy P whole fs h = h
All-files_to_copy P (against g) fs h = All-keep_if P _ fs h

-- A steady source is copied as it was scanned.
landed-steady :
    (length_now : ScannedFile → ℕ) (fs : List ScannedFile)
    → All (IsSteady length_now) fs
    → landed length_now none fs ≡ fs
landed-steady length_now [] h = refl
landed-steady length_now (f ∷ fs) (a, h) =
    ap (λ n. record f { size_bytes = n } ∷ map (copy_one length_now) fs) a
    ∙ ap (λ l. f ∷ l) (landed-steady length_now fs h)

-- Only a run whose copy did not fail is recorded.
recorded-landed :
    (fails : Option ℕ) (integrity : Option Bool)
    → (verdict (failed fails) integrity).record_it ≡ true
    → fails ≡ none
unfolding verdict
recorded-landed none integrity h = refl
recorded-landed (some n) integrity h = cc

module _ (b : Backup) (r : Run) (lost : List String) (fresh : IsFresh r.id (history b))
    (new : contains lost r.id ≡ false) (q : IsRequest r) (s : IsSound b lost) where
  -- A folder that the manifest does not name yet changes nothing.
  with-IsSound :
      (x : List ScannedFile) → IsSound (record b { folders = (r.id, x) ∷ b.folders }) lost
  with-IsSound x = record {
    pre = s.pre;
    live = s.live;
    whole = s.whole;
    ids = s.ids;
    cut = s.cut;
    gone = s.gone;
    apart = s.apart;
    made =
        Made-folder b.folders r.id x s.live
          (not_later r.id s.pre s.live (subst (IsFresh r.id) s.whole fresh)) s.made;
  }

  module _ (reference : Reference)
      (found : reference_for b.manifest r.backup_type ≡ ok reference) where
    abbrev files : List ScannedFile
    files = files_to_copy reference r.inventory

    abbrev copied : Backup
    copied = with_folder b r files

    steady_files : landed r.length_now none files ≡ files
    steady_files =
        landed-steady r.length_now files
          (All-files_to_copy (IsSteady r.length_now) reference r.inventory q.steady)

    push-IsSound :
        r.copy_fails_after ≡ none
        → IsSound (record copied { manifest = push b.manifest (generation_of r files) }) lost
    push-IsSound all_landed =
        let here : folder_in copied.folders r.id ≡ files =
          rw (eq_self r.id) (ap (λ o. landed r.length_now o files) all_landed ∙ steady_files) in
        Lives-snoc (folder_in copied.folders) (history b) lost (generation_of r files) r.inventory
          fresh new q.nodup refl
          (subst (CopiedAs r.backup_type (history b) (length (history b)) r.inventory) (sym here)
            (CopiedAs-reference b.manifest r.backup_type reference r.inventory found))
          (with-IsSound (landed r.length_now r.copy_fails_after files))

    after_copy-Kept :
        (integrity : Option Bool)
        → Kept lost r.keep_generations
            (after_copy copied r files (verdict (failed r.copy_fails_after) integrity))
    after_copy-Kept integrity =
        elim (Bool-cases (verdict (failed r.copy_fails_after) integrity).record_it) [
          | inr dropped ↦ rw dropped (no_loss copied lost (with-IsSound _))
          | inl kept ↦ rw kept (
              unless_failed-Kept lost r.keep_generations r.append_fails copied _ (with-IsSound _) (
                finish_prune-Kept r.keep_generations r.purge _ lost q.keeps q.members
                  (push-IsSound (recorded-landed r.copy_fails_after integrity kept))))
        ]

    after_check-Kept :
        (answer : Result IngestError (Option Bool))
        → Kept lost r.keep_generations (after_check copied r files answer)
    after_check-Kept (err e) = no_loss copied lost (with-IsSound _)
    after_check-Kept (ok integrity) = after_copy-Kept integrity

    after_links-Kept :
        (link : Option String) → Kept lost r.keep_generations (after_links link copied r files)
    after_links-Kept (some path) = no_loss copied lost (with-IsSound _)
    after_links-Kept none = after_check-Kept (checked r.copy_fails_after r.integrity)

abbrev no_reference : RunError → Result RunError Reference
no_reference e = err e

err_injective : (e e' : RunError) → no_reference e ≡ err e' → e ≡ e'
err_injective e e' h = cc

found_or-loses :
    (o : Option Generation) (e e' : RunError) (b : Backup) (keep : Option ℕ)
    → lost_ids e b keep ≡ []
    → found_or o e ≡ err e'
    → lost_ids e' b keep ≡ []
found_or-loses none e e' b keep h k = subst (λ x. lost_ids x b keep ≡ []) (err_injective e e' k) h
found_or-loses (some g) e e' b keep h k = cc

-- A run that has no reference loses nothing.
refused-loses :
    (fails : Option IngestError) (b : Backup) (t : BackupType) (keep : Option ℕ) (e : RunError)
    → read_reference fails b.manifest t ≡ err e
    → lost_ids e b keep ≡ []
unfolding reference_for
refused-loses none b full keep e h = cc
refused-loses (some x) b full keep e h = cc
refused-loses none b incremental keep e h =
    found_or-loses (latest b.manifest) no_prior e b keep refl h
refused-loses none b differential keep e h =
    found_or-loses (latest_full b.manifest) no_prior_full e b keep refl h
refused-loses (some x) b incremental keep e h =
    subst (λ y. lost_ids y b keep ≡ []) (err_injective (ingest x) e h) refl
refused-loses (some x) b differential keep e h =
    subst (λ y. lost_ids y b keep ≡ []) (err_injective (ingest x) e h) refl

-- A run whose id is neither in the history nor lost, whose scan lists no path twice, whose sources
-- keep their scanned length until they are copied, and which keeps at least one cycle if it prunes,
-- leaves a sound history sound: whether it is refused, a simulation, fails to read its reference, to
-- make its folder, to copy, to verify or to be recorded, finds a link, does not verify, is recorded,
-- or prunes afterwards. A purge that fails behind its start adds to the lost ids those it was to
-- delete, and nothing else does.
pub execute-IsSound :
    (b : Backup) (r : Run) (lost : List String)
    → IsFresh r.id (history b)
    → contains lost r.id ≡ false
    → IsRequest r
    → IsSound b lost
    → IsSound (execute b r).1 (lost ++ lost_by (execute b r) r.keep_generations)
unfolding execute
execute-IsSound b r lost fresh new q s =
    elim (Result-cases (read_reference r.reference_fails b.manifest r.backup_type)) [
      | inr (e, refused) ↦ rw refused (
          subst (λ l. IsSound b (lost ++ l))
            (sym (refused-loses r.reference_fails b r.backup_type r.keep_generations e refused))
            (no_loss b lost s))
      | inl (reference, read) ↦
          let found =
            read_reference-found r.reference_fails b.manifest r.backup_type reference read in
          rw read (elim (Bool-cases r.dry_run) [
            | inl dry ↦ simp dry (no_loss b lost s)
            | inr real ↦ simp real (
                unless_failed-Kept lost r.keep_generations r.create_fails b _ s
                  (after_links-Kept b r lost fresh new q s reference found r.link_found))
          ])
    ]
