-- ===== src/JobEditor/Uncovering.antt =====
-- Emptying a field of a job that the file's top-level values set too: what the checks of
-- job_editor.rs let through.
use rustcopy.Base.{or_else, ℕ, ◌<◌, ◌≡◌, ap, nat_eq, String, Option, none, some, ok, arith}
use rustcopy.Config.{JobConfig, merged_over}
use rustcopy.JobEditor.{denied, base_of, apply_draft_with}
use rustcopy.JobEditor.Draft.{draft_from}
use rustcopy.JobEditor.Pinned.{pinned, pin}
use rustcopy.JobEditor.Effective.{pin_lem}
use rustcopy.JobEditor.Narrowing.{KeepsAtLeast}
use rustcopy.JobEditor.Unchanged.{
  IsEditable, emptied, accepting, check_draft-emptied, resolve_command_own, resolve_command_emptied,
}

lowered :
    (own inherited : Option ℕ) (from to : ℕ)
    → own ≡ some from
    → inherited ≡ some to
    → to < from
    → ¬ KeepsAtLeast (or_else own inherited) (or_else (pin own inherited none) inherited)
lowered own inherited from to keeps kept less k =
    let k' = rw (pin_lem own inherited none, keeps, kept) at k in omega (arith, k', less)

-- Emptying the boxes of retention and of the first command, for a job that sets both where the
-- file's top-level values set both too, is accepted with no permit. If the top-level values keep
-- fewer generations then retention is lowered, and the top-level command, which the job did not
-- run before, runs from then on.
pub apply_draft_with-uncovers :
    (own : Option JobConfig) (inherited : JobConfig) (name : String) (from to : ℕ)
    (command top : String)
    → IsEditable (base_of own) inherited name
    → (base_of own).keep_generations ≡ some from
    → inherited.keep_generations ≡ some to
    → to < from
    → (base_of own).pre_command ≡ some command
    → inherited.pre_command ≡ some top
    → (job : JobConfig) × (apply_draft_with own inherited
          (emptied (draft_from (merged_over (base_of own) inherited) name))
          denied
        ≡ ok job)
      × ¬ KeepsAtLeast
          (merged_over (base_of own) inherited).keep_generations
          (merged_over job inherited).keep_generations
      × ((merged_over (base_of own) inherited).pre_command ≡ some command)
      × ((merged_over job inherited).pre_command ≡ some top)
unfolding draft_from merged_over pinned
apply_draft_with-uncovers own inherited name from to command top e keeps kept less runs ran =
    let base = base_of own in
    let draft = emptied (draft_from (merged_over base inherited) name) in
    (
      pinned base inherited draft none base.post_command,
      accepting own inherited draft denied none base.post_command
          (check_draft-emptied base inherited name e)
          (resolve_command_emptied "pre_command" name base.pre_command inherited.pre_command denied
            command runs)
          (resolve_command_own "post_command" name base.post_command inherited.post_command denied
            e.post_command),
      lowered base.keep_generations inherited.keep_generations from to keeps kept less,
      ap (λ o. or_else o inherited.pre_command) runs,
      ran,
    )
