-- ===== src/JobEditor/Proposal.antt =====
-- The proposed configuration: `label_of`, `build_proposal_with` and `read_drafts` of
-- crates/rustcopy-core/src/job_editor.rs.
use rustcopy.Base.{
  is_none, unwrap_or, ℕ, zero, suc, ◌+◌, String, Bool, true, false, ◌||◌, Option, none, some, List,
  [], ◌∷◌, ◌++◌, map, ◌==◌, string_eq, Result, ok, err, ◌>>=◌, if◌then◌else◌, get_elem?,
}
use rustcopy.Errors.{IngestError, editor_cannot_split_single_job_config}
use rustcopy.Strings.{append, decimal}
use rustcopy.Config.{JobConfig, no_settings, merged_over, IngestConfig}
use rustcopy.JobEditor.{CommandPermit, apply_draft_with}
use rustcopy.JobEditor.Draft.{JobDraft, draft_from}

-- A job's own name, else its place from 1.
abbrev pub label_of : JobConfig → ℕ → String
label_of job index = unwrap_or job.name (append "job" (decimal (index + 1)))

-- `stored_jobs.iter().enumerate().position(..)`, from an index on.
unfoldable pub find_label : ℕ → List JobConfig → String → Option ℕ
find_label i [] name = none
find_label i (job ∷ jobs) name =
    let rest = find_label (i + 1) jobs name in if label_of job i == name then some i else rest

-- `vec![false; stored_jobs.len()]`
abbrev pub none_consumed : List JobConfig → List Bool
none_consumed stored = map (λ _. false) stored

abbrev pub consume : List Bool → Option ℕ → List Bool
consume [] found = []
consume (b ∷ bs) none = b ∷ bs
consume (b ∷ bs) (some zero) = true ∷ bs
consume (b ∷ bs) (some (suc i)) = b ∷ consume bs (some i)

-- The stored job at the place that was found, if one was.
abbrev pub stored_at : List JobConfig → Option ℕ → Option JobConfig
stored_at stored none = none
stored_at stored (some index) = get_elem? stored index

unfoldable pub apply_drafts :
    List JobConfig
    → JobConfig
    → CommandPermit
    → List JobDraft
    → List Bool
    → Result IngestError (List JobConfig × List Bool)
apply_drafts stored defaults commands [] consumed = ok ([], consumed)
apply_drafts stored defaults commands (draft ∷ drafts) consumed =
    let found = find_label 0 stored draft.name in
    apply_draft_with (stored_at stored found) defaults draft commands >>= λ job.
    apply_drafts stored defaults commands drafts (consume consumed found) >>= λ (jobs, marks).
    ok (job ∷ jobs, marks)

-- The jobs that no draft named.
abbrev pub untouched : List Bool → List JobConfig → List JobConfig
untouched (true ∷ marks) (job ∷ jobs) = untouched marks jobs
untouched (false ∷ marks) (job ∷ jobs) = job ∷ untouched marks jobs
untouched marks jobs = []

-- A file with jobs.
unfoldable pub propose_jobs :
    IngestConfig → List JobConfig → List JobDraft → CommandPermit → Result IngestError IngestConfig
propose_jobs config stored drafts commands =
    apply_drafts stored config.defaults commands drafts (none_consumed stored) >>= λ (jobs, marks).
    ok (record config { jobs = some (jobs ++ untouched marks stored) })

abbrev pub defaults_of : Option IngestConfig → Option JobConfig
defaults_of none = none
defaults_of (some config) = some config.defaults

abbrev pub current_label : Option IngestConfig → String
current_label none = "job1"
current_label (some config) = label_of config.defaults 0

-- A file whose one job is its top-level values.
unfoldable pub propose_single :
    Option IngestConfig
    → IngestConfig
    → List JobDraft
    → CommandPermit
    → Result IngestError IngestConfig
propose_single existing config [] commands = ok config
propose_single existing config (draft ∷ []) commands =
    if is_none existing || draft.name == current_label existing
    then (apply_draft_with (defaults_of existing) no_settings draft commands >>= λ job.
        ok (record config { defaults = job }))
    else err (editor_cannot_split_single_job_config (current_label existing))
propose_single existing config (draft ∷ next ∷ drafts) commands =
    err (editor_cannot_split_single_job_config (current_label existing))

abbrev pub no_config : IngestConfig
no_config = record { defaults = no_settings; jobs = none }

unfoldable pub build_proposal_with :
    Option IngestConfig → List JobDraft → CommandPermit → Result IngestError IngestConfig
build_proposal_with existing drafts commands =
    let config = unwrap_or existing no_config in
    elim (unwrap_or config.jobs []) [
      | [] ↦ propose_single existing config drafts commands
      | job ∷ jobs ↦ propose_jobs config (job ∷ jobs) drafts commands
    ]

-- Each job of a file as a draft, from its merged settings.
abbrev pub drafts_from : JobConfig → ℕ → List JobConfig → List JobDraft
drafts_from defaults i [] = []
drafts_from defaults i (job ∷ jobs) =
    draft_from (merged_over job defaults) (label_of job i) ∷ drafts_from defaults (i + 1) jobs

-- `read_drafts`, of a file that has been read.
unfoldable pub read_drafts : IngestConfig → List JobDraft
read_drafts config = elim (unwrap_or config.jobs []) [
  | [] ↦ draft_from config.defaults (label_of config.defaults 0) ∷ []
  | job ∷ jobs ↦ drafts_from config.defaults 0 (job ∷ jobs)
]
