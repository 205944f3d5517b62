-- ===== src/RunHistory.antt =====
-- The run history's reader: crates/rustcopy-core/src/history.rs. The records are a parameter, as is
-- what serde_json reads of a line; the
-- reader answers a line or an error.
pub mod Window
use rustcopy.Base.{
  ℕ, suc, ◌+◌, ◌-◌, Bool, true, false, not, ◌&&◌, Option, none, some, List, [], ◌∷◌, ◌++◌, length,
  drop, Result, ok, err, ◌==◌, nat_eq, ltb, if◌then◌else◌,
}
use rustcopy.Errors.{IngestError}
use rustcopy.Generations.{find_last}
use rustcopy.Text.{Text, trim, is_empty}

pub record RunHistory {ℓ} (A : Type ℓ) : Type ℓ where
  pub records : List A
  pub skipped_lines : ℕ

module _ {ℓ} {A : Type ℓ} where
  abbrev pub pop_front : List A → List A
  pop_front [] = []
  pop_front (_ ∷ window) = window

  -- One record more in the window of at most `limit` (of all of them when that is 0).
  unfoldable pub push_record : ℕ → List A → A → List A
  push_record limit window r =
      (if ltb 0 limit && length window == limit then pop_front window else window) ++ (r ∷ [])

  unfoldable pub read_line : (Text → Option A) → ℕ → RunHistory A → Text → RunHistory A
  read_line parse limit h line = if is_empty (trim line) then h else elim (parse (trim line)) [
    | some r ↦ record h { records = push_record limit h.records r }
    | none ↦ record h { skipped_lines = suc h.skipped_lines }
  ]

  -- The loop over the answers of the reader, one for each line.
  unfoldable pub read_lines :
      (Text → Option A)
      → ℕ
      → RunHistory A
      → List (Result IngestError Text)
      → Result IngestError (RunHistory A)
  read_lines parse limit h [] = ok h
  read_lines parse limit h (err e ∷ lines) = err e
  read_lines parse limit h (ok line ∷ lines) =
      read_lines parse limit (read_line parse limit h line) lines

  unfoldable pub read_from :
      (Text → Option A) → ℕ → List (Result IngestError Text) → Result IngestError (RunHistory A)
  read_from parse limit lines =
      read_lines parse limit (record { records = []; skipped_lines = 0 }) lines

  unfoldable pub latest_run : RunHistory A → Option A
  latest_run h = find_last (λ _. true) h.records
