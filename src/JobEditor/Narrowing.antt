-- ===== src/JobEditor/Narrowing.antt =====
-- The editor may narrow risk and never widen it: the rules of job_editor.rs, read on what a job does
-- before and after an accepted draft.
use rustcopy.Base.{
  or_else, unwrap_or, ℕ, ◌≤◌, ◌≡◌, ◌⊎◌, inl, inr, refl, ◌∙◌, sym, ap, String, true, false, Option,
  none, some, ok, arith, >>=-ok, Bool-cases, ◌==◌, string_eq, option_eq,
}
use rustcopy.Safety.{can_edit_job_commands}
use rustcopy.Config.{JobConfig, merged_over}
use rustcopy.JobEditor.{
  CommandPermit, refuse_if, check_retention, check_draft, changed_command, resolve_command,
  wanted_command, is_confirmed, base_of, apply_draft_with, trimmed, has_control,
}
use rustcopy.JobEditor.Draft.{JobDraft}
use rustcopy.JobEditor.Pinned.{pinned}
use rustcopy.JobEditor.Effective.{pin_bool_lem, pin_lem}

-- What an accepted draft came through.
pub record Accepted (own : Option JobConfig) (inherited : JobConfig) (draft : JobDraft)
    (permit : CommandPermit) (job : JobConfig) : Type 0 where
  pub pre : Option String
  pub post : Option String
  pub checked : check_draft (merged_over (base_of own) inherited) draft ≡ ok tt
  pub pre_resolved :
      resolve_command "pre_command" draft.name
        (base_of own).pre_command
        inherited.pre_command
        draft.pre_command
        permit
      ≡ ok pre
  pub post_resolved :
      resolve_command "post_command" draft.name
        (base_of own).post_command
        inherited.post_command
        draft.post_command
        permit
      ≡ ok post
  pub result : job ≡ pinned (base_of own) inherited draft pre post

pub accepted :
    (own : Option JobConfig) (inherited : JobConfig) (draft : JobDraft) (permit : CommandPermit)
    (job : JobConfig)
    → apply_draft_with own inherited draft permit ≡ ok job
    → Accepted own inherited draft permit job
unfolding apply_draft_with
accepted own inherited draft permit job h =
    let (_, checked, h') = >>=-ok (check_draft (merged_over (base_of own) inherited) draft) _ h in
    let (pre, pre_resolved, h'') = >>=-ok _ _ h' in
    let (post, post_resolved, done) = >>=-ok _ _ h'' in
    record {
      pre = pre;
      post = post;
      checked = checked;
      pre_resolved = pre_resolved;
      post_resolved = post_resolved;
      result = cc;
    }

-- No more is deleted by retention.
abbrev pub KeepsAtLeast : Option ℕ → Option ℕ → Type 0
KeepsAtLeast before none = Unit
KeepsAtLeast none (some to) = ⊥
KeepsAtLeast (some from) (some to) = from ≤ to

check_retention-KeepsAtLeast :
    (name : String) (from to : Option ℕ)
    → check_retention name from to ≡ ok tt
    → KeepsAtLeast from to
check_retention-KeepsAtLeast name from none h = tt
check_retention-KeepsAtLeast name none (some to) h = cc
check_retention-KeepsAtLeast name (some from) (some to) h = ground arith

-- A command that runs afterwards ran before, or the person may write it and confirmed its text.
abbrev pub RunsKnown : CommandPermit → Option String → Option String → Type 0
RunsKnown permit before after =
    (after ≡ none)
    ⊎ (after ≡ before)
    ⊎ ((text : String) × (after ≡ some text)
        × (can_edit_job_commands permit.level ≡ true)
        × (is_confirmed permit.confirmed text ≡ true))

changed_command-RunsKnown :
    (which name : String) (own inherited wanted r : Option String) (permit : CommandPermit)
    → (wanted ≡ none → inherited ≡ none)
    → changed_command which name own wanted permit ≡ ok r
    → RunsKnown permit (or_else own inherited) (or_else r inherited)
unfolding changed_command
changed_command-RunsKnown which name none inherited none r permit clears h = cc
changed_command-RunsKnown which name (some command) inherited none r permit clears h =
    inl (ground (arith, clears refl, h))
changed_command-RunsKnown which name own inherited (some text) r permit clears h =
    inr (inr (text, ground (arith, h), ground (arith, h), ground (arith, h)))

resolve_command-RunsKnown :
    (which name : String) (own inherited draft r : Option String) (permit : CommandPermit)
    → (wanted_command draft ≡ none → inherited ≡ none)
    → resolve_command which name own inherited draft permit ≡ ok r
    → RunsKnown permit (or_else own inherited) (or_else r inherited)
unfolding resolve_command
resolve_command-RunsKnown which name own inherited draft r permit clears h =
    let (_, _, h') = >>=-ok (refuse_if (has_control (wanted_command draft)) _) _ h in
    elim (Bool-cases (wanted_command draft == trimmed (or_else own inherited))) [
      | inl same ↦
          let kept : ok own ≡ ok r = rw same at h' in
          inr (inl (ap (λ o. or_else o inherited) (cc kept)))
      | inr differs ↦
          changed_command-RunsKnown which name own inherited (wanted_command draft) r permit clears
            (rw differs at h')
    ]

-- What the checks say of an accepted draft.
module _ (effective : JobConfig) (draft : JobDraft) (h : check_draft effective draft ≡ ok tt) where
  retention_checked :
      check_retention draft.name effective.keep_generations draft.keep_generations ≡ ok tt
  unfolding check_draft
  retention_checked = ground (arith, h)

  mirror_checked : draft.mirror ≡ true → unwrap_or effective.mirror false ≡ true
  unfolding check_draft
  mirror_checked m = ground (arith, m, h)

  prescan_checked :
      draft.mirror ≡ true → draft.no_prescan ≡ true → unwrap_or effective.no_prescan false ≡ true
  unfolding check_draft
  prescan_checked m n = ground (arith, m, n, h)

-- The form empties no field that the file's top-level values would fill again.
pub record ClearsNothing (inherited : JobConfig) (draft : JobDraft) : Type 0 where
  pub keep_generations : draft.keep_generations ≡ none → inherited.keep_generations ≡ none
  pub pre_command : wanted_command draft.pre_command ≡ none → inherited.pre_command ≡ none
  pub post_command : wanted_command draft.post_command ≡ none → inherited.post_command ≡ none

-- What a job may be after an edit, against what it was.
pub record Narrows (permit : CommandPermit) (before after : JobConfig) : Type 0 where
  pub mirror : unwrap_or after.mirror false ≡ true → unwrap_or before.mirror false ≡ true
  pub no_prescan :
      unwrap_or after.mirror false ≡ true
      → unwrap_or after.no_prescan false ≡ true
      → unwrap_or before.no_prescan false ≡ true
  pub keep_generations : KeepsAtLeast before.keep_generations after.keep_generations
  pub pre_command : RunsKnown permit before.pre_command after.pre_command
  pub post_command : RunsKnown permit before.post_command after.post_command

refilled :
    (draft inherited : Option ℕ)
    → (draft ≡ none → inherited ≡ none)
    → or_else draft inherited ≡ draft
refilled none inherited clears = clears refl
refilled (some n) inherited clears = refl

module _ (own : Option JobConfig) (inherited : JobConfig) (draft : JobDraft)
    (permit : CommandPermit) (job : JobConfig) (clears : ClearsNothing inherited draft)
    (a : Accepted own inherited draft permit job) where
  accepted-Narrows :
      Narrows permit (merged_over (base_of own) inherited) (merged_over job inherited)
  unfolding merged_over pinned
  accepted-Narrows =
      let base = base_of own in
      let before = merged_over base inherited in
      let mirrors =
        λ (m : _ ≡ true). sym (pin_bool_lem base.mirror inherited.mirror draft.mirror) ∙ m in
      let skips = λ (n : _ ≡ true).
        sym (pin_bool_lem base.no_prescan inherited.no_prescan draft.no_prescan) ∙ n in
      rw a.result (record {
        mirror = λ m. mirror_checked before draft a.checked (mirrors m);
        no_prescan = λ m n. prescan_checked before draft a.checked (mirrors m) (skips n);
        keep_generations =
            rw (pin_lem base.keep_generations inherited.keep_generations draft.keep_generations) (
              rw
                (refilled draft.keep_generations inherited.keep_generations clears.keep_generations)
                (check_retention-KeepsAtLeast draft.name before.keep_generations
                  draft.keep_generations (retention_checked before draft a.checked)));
        pre_command =
            resolve_command-RunsKnown _ draft.name _ _ _ a.pre permit clears.pre_command
              a.pre_resolved;
        post_command =
            resolve_command-RunsKnown _ draft.name _ _ _ a.post permit clears.post_command
              a.post_resolved;
      })

-- An accepted draft that empties no field the file's top-level values would fill again narrows the
-- job: what it does afterwards mirrors, and skips the prescan of a mirror, only where it did
-- before; retention is not introduced and keeps as many cycles at least; and each of the two
-- commands is none, the one that ran before, or one that was confirmed at a level that may write
-- commands.
pub apply_draft_with-Narrows :
    (own : Option JobConfig) (inherited : JobConfig) (draft : JobDraft) (permit : CommandPermit)
    (job : JobConfig)
    → ClearsNothing inherited draft
    → apply_draft_with own inherited draft permit ≡ ok job
    → Narrows permit (merged_over (base_of own) inherited) (merged_over job inherited)
apply_draft_with-Narrows own inherited draft permit job clears h =
    accepted-Narrows own inherited draft permit job clears
      (accepted own inherited draft permit job h)
