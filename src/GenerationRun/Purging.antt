-- ===== src/GenerationRun/Purging.antt =====
-- Retention behind a recorded run: what a purge leaves, and what one that fails may lose.
use rustcopy.Base.{
  ℕ, ◌<◌, ◌≡◌, ◌∙◌, refl, sym, ap, subst, String, false, Option, none, some, List, [], ◌∷◌, ◌++◌,
  contains, string_eq, Bool-cases, inl, inr, ok, err, Result, append-nil, or_else,
}
use rustcopy.Errors.{IngestError}
use rustcopy.Generations.{ScannedFile, retain_generations}
use rustcopy.Generations.Retention.{NodupIds, kept_of, kept_of-suffix}
use rustcopy.Generations.Index.{index_to_prune-index_of, PruneSplit, prune_split}
use rustcopy.GenerationRun.{
  Backup, RunError, no_prior, no_prior_full, not_pruned, ingest, Purge, folder_in, unless_failed,
  remove_folders, rewrite_manifest, after_removal, remove_generations, prune_ids,
  prune_old_generations, finish_prune,
}
use rustcopy.GenerationRun.Removal.{folder_in-remove_folders}
use rustcopy.GenerationRun.Keeps.{history}
use rustcopy.GenerationRun.Live.{Lives}
use rustcopy.GenerationRun.Cut.{Lives-kept, Lives-stopped}

-- The ids in the list are those that a purge which failed was to delete.
abbrev pub IsSound : Backup → List String → Type 0
IsSound b lost = Lives (folder_in b.folders) (history b) lost

-- A purge that fails after it has begun may have removed the folders of any of its ids.
abbrev pub lost_ids : RunError → Backup → Option ℕ → List String
lost_ids no_prior_full b keep = []
lost_ids no_prior b keep = []
lost_ids (ingest e) b keep = []
lost_ids (not_pruned e) b none = []
lost_ids (not_pruned e) b (some keep_cycles) = prune_ids b keep_cycles

-- The ids that the run, by its answer and the backup it leaves, may have lost.
abbrev pub lost_by : Result RunError ℕ × Backup → Option ℕ → List String
lost_by (ok code, b) keep = []
lost_by (err e, b) keep = lost_ids e b keep

-- The run's answer, with what it may have lost, is sound.
abbrev pub Kept : List String → Option ℕ → Result RunError ℕ × Backup → Type 0
Kept lost keep out = IsSound out.1 (lost ++ lost_by out keep)

pub no_loss : (b : Backup) (lost : List String) → IsSound b lost → IsSound b (lost ++ [])
no_loss b lost s = subst (IsSound b) (sym (append-nil lost)) s

pub unless_failed-Kept :
    (lost : List String) (keep : Option ℕ) (o : Option IngestError) (b : Backup)
    (next : Result RunError ℕ × Backup)
    → IsSound b lost
    → Kept lost keep next
    → Kept lost keep (unless_failed o b next)
unless_failed-Kept lost keep none b next s h = h
unless_failed-Kept lost keep (some e) b next s h = no_loss b lost s

module _ (p : Purge) (b : Backup) (lost : List String) (keep_cycles : ℕ) (pos : 0 < keep_cycles)
    (members : (ids : List String) (j : String) → contains (p.hash_order ids) j ≡ contains ids j)
    (s : IsSound b lost) where
  split : PruneSplit (history b) (prune_ids b keep_cycles) keep_cycles
  split =
      subst (λ ids. PruneSplit (history b) ids keep_cycles)
        (sym (index_to_prune-index_of b.manifest keep_cycles)) (prune_split b.manifest keep_cycles)

  abbrev Agrees : List (String × List ScannedFile) → Type 0
  Agrees fs =
      (j : String)
      → contains (prune_ids b keep_cycles) j ≡ false
      → folder_in fs j ≡ folder_in b.folders j

  stopped :
      (fs : List (String × List ScannedFile))
      → Agrees fs
      → IsSound (record b { folders = fs }) (lost ++ prune_ids b keep_cycles)
  stopped fs agree =
      Lives-stopped (folder_in b.folders) (folder_in fs) (history b) lost s split.pre split.kept
        (prune_ids b keep_cycles) split.whole split.taken agree split.cuts (split.stays pos)

  retained :
      (fs : List (String × List ScannedFile))
      → Agrees fs
      → IsSound
          (record {
            manifest = retain_generations b.manifest (prune_ids b keep_cycles);
            folders = fs;
          })
          lost
  unfolding retain_generations
  retained fs agree =
      let stays : kept_of (prune_ids b keep_cycles) (history b) ≡ split.kept =
        ap (kept_of (prune_ids b keep_cycles)) split.whole
        ∙ ap (λ l. kept_of l (split.pre ++ split.kept)) split.taken
        ∙ kept_of-suffix split.pre split.kept (subst (λ l. NodupIds l) split.whole s.ids) in
      subst (λ l. Lives (folder_in fs) l lost) (sym stays)
        (Lives-kept (folder_in b.folders) (folder_in fs) (history b) lost s split.pre split.kept
          (prune_ids b keep_cycles) split.whole split.taken agree split.cuts)

  rewrite_manifest-Kept :
      (o : Option IngestError) (fs : List (String × List ScannedFile))
      → Agrees fs
      → Kept lost
          (some keep_cycles)
          (rewrite_manifest o (record b { folders = fs }) (prune_ids b keep_cycles))
  rewrite_manifest-Kept none fs agree = no_loss _ lost (retained fs agree)
  rewrite_manifest-Kept (some e) fs agree = stopped fs agree

  after_removal-Kept :
      (out : Option IngestError × List (String × List ScannedFile))
      → Agrees out.1
      → Kept lost (some keep_cycles) (after_removal p b (prune_ids b keep_cycles) out)
  after_removal-Kept (none, fs) agree =
      rewrite_manifest-Kept (or_else p.reload_fails p.save_fails) fs agree
  after_removal-Kept (some e, fs) agree = stopped fs agree

  removed-Agrees :
      Agrees (remove_folders p.remove_fails (p.hash_order (prune_ids b keep_cycles)) b.folders).1
  removed-Agrees j h =
      folder_in-remove_folders p.remove_fails (p.hash_order (prune_ids b keep_cycles)) j b.folders
        (members (prune_ids b keep_cycles) j ∙ h)

  remove_generations-Kept :
      (ids : List String)
      → prune_ids b keep_cycles ≡ ids
      → Kept lost (some keep_cycles) (remove_generations p b ids)
  unfolding remove_generations
  remove_generations-Kept [] e = no_loss b lost s
  remove_generations-Kept (id ∷ ids) e = elim (Bool-cases p.allowed) [
    | inr refused ↦ rw refused (no_loss b lost s)
    | inl allowed ↦ rw allowed (
        subst
          (λ l.
            Kept lost (some keep_cycles)
              (after_removal p b l (remove_folders p.remove_fails (p.hash_order l) b.folders)))
          e (after_removal-Kept _ removed-Agrees))
  ]

  prune-Kept : Kept lost (some keep_cycles) (prune_old_generations p b keep_cycles)
  unfolding prune_old_generations
  prune-Kept =
      unless_failed-Kept lost (some keep_cycles) p.index_fails b _ s
        (remove_generations-Kept (prune_ids b keep_cycles) refl)

-- Retention, refused, done or stopped by an error, keeps a recorded history sound.
pub finish_prune-Kept :
    (keep : Option ℕ) (p : Purge) (b : Backup) (lost : List String)
    → ((k : ℕ) → keep ≡ some k → 0 < k)
    → ((ids : List String) (j : String) → contains (p.hash_order ids) j ≡ contains ids j)
    → IsSound b lost
    → Kept lost keep (finish_prune keep p b)
finish_prune-Kept none p b lost keeps members s = no_loss b lost s
finish_prune-Kept (some k) p b lost keeps members s = prune-Kept p b lost k (keeps k refl) members s
