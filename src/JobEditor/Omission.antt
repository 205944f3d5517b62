-- ===== src/JobEditor/Omission.antt =====
-- A proposal of job_editor.rs edits the jobs that are named and carries the others through.
use rustcopy.Base.{
  ℕ, zero, suc, ◌+◌, ◌<◌, ◌≡◌, ◌≢◌, ◌⊎◌, refl, ◌∙◌, sym, ap, subst, String, Bool, true, false, ◌||◌,
  Option, none, some, List, [], ◌∷◌, ◌++◌, map, ◌==◌, nat_eq, string_eq, ok, >>=-ok, arith,
  if◌then◌else◌, get_elem?, Bool-cases, inl, inr, eq_of_test, ne_of_test,
}
use rustcopy.Config.{JobConfig, IngestConfig}
use rustcopy.JobEditor.{CommandPermit, apply_draft_with}
use rustcopy.JobEditor.Draft.{JobDraft}
use rustcopy.JobEditor.Proposal.{
  label_of, find_label, none_consumed, consume, stored_at, apply_drafts, untouched, propose_jobs,
  build_proposal_with,
}

-- The place is the one that was found.
abbrev hits : Option ℕ → ℕ → Bool
hits none i = false
hits (some f) i = f == i

-- A mark for each job, by its place.
abbrev marks_of : (ℕ → Bool) → ℕ → List JobConfig → List Bool
marks_of p k [] = []
marks_of p k (job ∷ jobs) = p k ∷ marks_of p (k + 1) jobs

marks_of-eq :
    (p q : ℕ → Bool) (k : ℕ) (jobs : List JobConfig)
    → ((n : ℕ) → k < n + 1 → p n ≡ q n)
    → marks_of p k jobs ≡ marks_of q k jobs
marks_of-eq p q k [] h = refl
marks_of-eq p q k (job ∷ jobs) h =
    cc (h k (omega arith), marks_of-eq p q (k + 1) jobs (λ n b. h n (omega (arith, b))))

hits_self : (f n : ℕ) → f ≡ n → hits (some f) n ≡ true
unfolding nat_eq
hits_self f n h = ground (arith, h)

hits_other : (f n : ℕ) → f ≢ n → hits (some f) n ≡ false
unfolding nat_eq
hits_other f n h = ground (arith, h)

-- Consuming the place `i` of the jobs from the place `k` on.
consume-marks_of :
    (p : ℕ → Bool) (k i f : ℕ) (jobs : List JobConfig)
    → f ≡ k + i
    → consume (marks_of p k jobs) (some i) ≡ marks_of (λ n. hits (some f) n || p n) k jobs
consume-marks_of p k i f [] h = refl
consume-marks_of p k zero f (job ∷ jobs) h = rw (hits_self f k (omega (arith, h))) (
    ap (λ marks. true ∷ marks)
      (marks_of-eq p _ (k + 1) jobs λ n b. rw (hits_other f n (omega (arith, h, b))) refl))
consume-marks_of p k (suc i) f (job ∷ jobs) h =
    rw (hits_other f k (omega (arith, h)))
      (ap (λ marks. p k ∷ marks) (consume-marks_of p (k + 1) i f jobs (omega (arith, h))))

consume-found :
    (p : ℕ → Bool) (found : Option ℕ) (jobs : List JobConfig)
    → consume (marks_of p 0 jobs) found ≡ marks_of (λ n. hits found n || p n) 0 jobs
consume-found p none [] = refl
consume-found p none (job ∷ jobs) = refl
consume-found p (some i) jobs = consume-marks_of p 0 i i jobs (omega arith)

-- The jobs that no mark takes away, in their order.
pub unmarked : (ℕ → Bool) → ℕ → List JobConfig → List JobConfig
unmarked p k [] = []
unmarked p k (job ∷ jobs) = let rest = unmarked p (k + 1) jobs in if p k then rest else job ∷ rest

untouched-marks_of :
    (p : ℕ → Bool) (k : ℕ) (jobs : List JobConfig)
    → untouched (marks_of p k jobs) jobs ≡ unmarked p k jobs
unfolding unmarked
untouched-marks_of p k [] = refl
untouched-marks_of p k (job ∷ jobs) = ground (arith, untouched-marks_of p (k + 1) jobs)

-- Some draft's name finds the place.
abbrev pub named_by : List JobConfig → List JobDraft → ℕ → Bool
named_by stored [] n = false
named_by stored (draft ∷ drafts) n =
    hits (find_label 0 stored draft.name) n || named_by stored drafts n

-- The stored job that a name edits: the one that goes by it, or none if no job does.
abbrev pub Found : List JobConfig → String → ℕ → Option JobConfig → Type 0
Found [] name k none = Unit
Found [] name k (some own) = ⊥
Found (job ∷ jobs) name k own =
    ((label_of job k ≡ name) × (own ≡ some job))
    ⊎ ((label_of job k ≢ name) × Found jobs name (k + 1) own)

-- Each draft in its order has become a job: the stored one with the draft's name, edited, or a new
-- one.
abbrev pub Edited :
    List JobConfig → JobConfig → CommandPermit → List JobDraft → List JobConfig → Type 0
Edited stored defaults permit [] [] = Unit
Edited stored defaults permit (draft ∷ drafts) (job ∷ jobs) =
    ((own : Option JobConfig) × Found stored draft.name 0 own
      × (apply_draft_with own defaults draft permit ≡ ok job))
    × Edited stored defaults permit drafts jobs
Edited stored defaults permit _ _ = ⊥

find_label-cases :
    (jobs : List JobConfig) (name : String) (k : ℕ)
    → ((find_label k jobs name ≡ none) × Found jobs name k none)
      ⊎ ((i : ℕ) × (job : JobConfig) × (find_label k jobs name ≡ some (k + i))
          × (get_elem? jobs i ≡ some job)
          × Found jobs name k (some job))
unfolding find_label
find_label-cases [] name k = inl (refl, tt)
find_label-cases (job ∷ jobs) name k = elim (Bool-cases (label_of job k == name)) [
  | inl same ↦
      inr (0, job, rw same (ap some (omega arith)), refl, inl (eq_of_test _ name same, refl))
  | inr differs ↦ elim (find_label-cases jobs name (k + 1)) [
    | inl (missing, found) ↦ inl (rw differs missing, inr (ne_of_test _ name differs, found))
    | inr (i, own, place, at, found) ↦ inr (
      suc i,
      own,
      rw differs (place ∙ ap some (omega arith)),
      at,
      inr (ne_of_test _ name differs, found),
    )
  ]
]

Found-find_label :
    (stored : List JobConfig) (name : String)
    → Found stored name 0 (stored_at stored (find_label 0 stored name))
Found-find_label stored name = elim (find_label-cases stored name 0) [
  | inl (missing, found) ↦ rw missing found
  | inr (i, own, place, at, found) ↦
      let there : find_label 0 stored name ≡ some i = place ∙ ap some (omega arith) in
      rw (there, at) found
]

merge_tests : (a b c : Bool) → (b || (a || c)) ≡ ((a || b) || c)
merge_tests true true c = refl
merge_tests true false c = refl
merge_tests false b c = refl

apply_drafts_lem :
    (stored : List JobConfig) (defaults : JobConfig) (permit : CommandPermit)
    (drafts : List JobDraft) (p : ℕ → Bool) (jobs : List JobConfig) (marks : List Bool)
    → apply_drafts stored defaults permit drafts (marks_of p 0 stored) ≡ ok (jobs, marks)
    → Edited stored defaults permit drafts jobs
      × (marks ≡ marks_of (λ n. named_by stored drafts n || p n) 0 stored)
unfolding apply_drafts
apply_drafts_lem stored defaults permit [] p jobs marks h =
    (subst (Edited stored defaults permit []) (ended.0) tt, ended.1)
  where
    ended : ([] ≡ jobs) × (marks ≡ marks_of p 0 stored)
    ended = (cc h, cc h)
apply_drafts_lem stored defaults permit (draft ∷ drafts) p jobs marks h =
    let found = find_label 0 stored draft.name in
    let (job, applied, h₁) =
      >>=-ok (apply_draft_with (stored_at stored found) defaults draft permit) _ h in
    let ((jobs', marks'), rest, h₂) =
      >>=-ok (apply_drafts stored defaults permit drafts (consume (marks_of p 0 stored) found)) _
        h₁ in
    let (edited, marked) =
      apply_drafts_lem stored defaults permit drafts (λ n. hits found n || p n) jobs' marks'
        (rw (consume-found p found stored) at rest) in
    let together : (job ∷ jobs') ≡ jobs = cc h₂ in
    let ends : marks ≡ marks' = cc h₂ in
    (
      subst (Edited stored defaults permit (draft ∷ drafts)) together
          ((stored_at stored found, Found-find_label stored draft.name, applied), edited),
      ends
          ∙ marked
          ∙ marks_of-eq _ _ 0 stored
              (λ n b. merge_tests (hits found n) (named_by stored drafts n) (p n)),
    )

blank_marks : (k : ℕ) (jobs : List JobConfig) → map (λ _. false) jobs ≡ marks_of (λ _. false) k jobs
blank_marks k [] = refl
blank_marks k (job ∷ jobs) = ap (λ marks. false ∷ marks) (blank_marks (k + 1) jobs)

or_false : (b : Bool) → (b || false) ≡ b
or_false true = refl
or_false false = refl

-- A file with jobs.
abbrev pub file_of : JobConfig → List JobConfig → IngestConfig
file_of defaults jobs = record { defaults = defaults; jobs = some jobs }

-- A proposal for a file with jobs has one job for each draft, in the drafts' order: the stored job
-- that goes by the draft's name, edited over the file's top-level values, or a new one if no stored
-- job does; behind them it has every stored job that no draft's name finds, unchanged and in the
-- stored order; and the top-level values stay.
pub build_proposal_with_lem :
    (defaults : JobConfig) (first : JobConfig) (others : List JobConfig) (drafts : List JobDraft)
    (permit : CommandPermit) (new : IngestConfig)
    → build_proposal_with (some (file_of defaults (first ∷ others))) drafts permit ≡ ok new
    → (edited : List JobConfig) × Edited (first ∷ others) defaults permit drafts edited
      × (new
          ≡ file_of defaults
              (edited ++ unmarked (named_by (first ∷ others) drafts) 0 (first ∷ others)))
unfolding build_proposal_with propose_jobs
build_proposal_with_lem defaults first others drafts permit new h =
    let stored = first ∷ others in
    let ((edited, marks), applied, done) =
      >>=-ok (apply_drafts stored defaults permit drafts (none_consumed stored)) _ h in
    let (each, marked) =
      apply_drafts_lem stored defaults permit drafts (λ _. false) edited marks
        (rw (blank_marks 0 stored) at applied) in
    let proposed : file_of defaults (edited ++ untouched marks stored) ≡ new = cc done in
    (
      edited,
      each,
      sym proposed
          ∙ ap (λ ms. file_of defaults (edited ++ untouched ms stored))
              (marked ∙ marks_of-eq _ _ 0 stored (λ n _. or_false (named_by stored drafts n)))
          ∙ ap (λ jobs. file_of defaults (edited ++ jobs))
              (untouched-marks_of (named_by stored drafts) 0 stored),
    )
