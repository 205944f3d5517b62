-- ===== src/Schedule/TaskRows.antt =====
-- The search for the tasks of a configuration, against the columns of the table.
use rustcopy.Base.{
  ℕ, suc, zero, ◌<◌, ◌≡◌, refl, ◌∙◌, ap, Bool, false, Option, none, some, List, [], ◌∷◌, ◌++◌, ◌==◌,
  nat_eq, if◌then◌else◌, All, keep_if, map, length, get_elem?, arith,
}
use rustcopy.Strings.{contains_text}
use rustcopy.Text.{Text, OneLine}
use rustcopy.Schedule.{backslash}
use rustcopy.Schedule.Split.{repeated}
use rustcopy.Schedule.Tasks.{
  ScheduledTask, without_backslashes, task_of, task_of_row, add_some, tasks_of, runs,
  tasks_for_config,
}
use rustcopy.Schedule.Listing.{csv_table, IsRow, tasks_for_config-rows}

-- A row that describes a task: its name stands behind backslashes, and more columns may follow the
-- command.
pub record TaskRow : Type 0 where
  pub host : Text
  pub slashes : ℕ
  pub name : Text
  pub next_run : Text
  pub status : Text
  pub logon_mode : Text
  pub last_run : Text
  pub last_result : Text
  pub author : Text
  pub command : Text
  pub more : List Text

-- A row of a table describes a task or has too few columns for one.
pub data Row : Type 0 where
  long : TaskRow → Row
  short : List Text → Row

abbrev pub cells : TaskRow → List Text
cells r =
    r.host
    ∷ (repeated r.slashes ++ r.name)
    ∷ r.next_run
    ∷ r.status
    ∷ r.logon_mode
    ∷ r.last_run
    ∷ r.last_result
    ∷ r.author
    ∷ r.command
    ∷ r.more

abbrev pub row_cells : Row → List Text
row_cells (long r) = cells r
row_cells (short fields) = fields

abbrev pub begins_with_backslash : Text → Bool
begins_with_backslash [] = false
begins_with_backslash (c ∷ t) = c == backslash

-- No field has a line's end, and a row that has too few columns has at least one.
abbrev pub IsListable : Row → Type 0
IsListable (long r) = (begins_with_backslash r.name ≡ false) × All OneLine (cells r)
IsListable (short fields) = (length fields < 9) × IsRow fields

abbrev pub task_in : TaskRow → ScheduledTask
task_in r = record {
  name = r.name;
  command = r.command;
  next_run = r.next_run;
  status = r.status;
  trigger = [];
  disabled = false;
}

-- The tasks whose command has the path in it, both in small letters.
module _ (to_lowercase : Text → Text) (path : Text) where
  abbrev pub found_in : List Row → List ScheduledTask
  found_in [] = []
  found_in (short fields ∷ rows) = found_in rows
  found_in (long r ∷ rows) =
      let rest = found_in rows in
      if contains_text (to_lowercase path) (to_lowercase r.command) then task_in r ∷ rest else rest

without_backslashes-repeated :
    (n : ℕ) (name : Text)
    → begins_with_backslash name ≡ false
    → without_backslashes (repeated n ++ name) ≡ name
unfolding nat_eq
without_backslashes-repeated zero [] h = refl
without_backslashes-repeated zero (c ∷ name) h = ground (arith, h)
without_backslashes-repeated (suc n) name h = without_backslashes-repeated n name h

task_of-none : (name next_run status : Option Text) → task_of name next_run status none ≡ none
task_of-none none next_run status = refl
task_of-none (some x) none status = refl
task_of-none (some x) (some y) none = refl
task_of-none (some x) (some y) (some z) = refl

get_elem?-short {ℓ} : {A : Type ℓ} (xs : List A) (n : ℕ) → length xs < suc n → get_elem? xs n ≡ none
get_elem?-short [] n h = refl
get_elem?-short (x ∷ xs) zero h = absurd (omega (arith, h))
get_elem?-short (x ∷ xs) (suc n) h = get_elem?-short xs n (omega (arith, h))

task_of_row-long :
    (r : TaskRow) → begins_with_backslash r.name ≡ false → task_of_row (cells r) ≡ some (task_in r)
unfolding task_of_row
task_of_row-long r h =
    ap (λ n. some (record (task_in r) { name = n }))
      (without_backslashes-repeated r.slashes r.name h)

task_of_row-short : (fields : List Text) → length fields < 9 → task_of_row fields ≡ none
unfolding task_of_row
task_of_row-short fields h =
    ap (task_of (get_elem? fields 1) (get_elem? fields 2) (get_elem? fields 3))
      (get_elem?-short fields 8 h)
    ∙ task_of-none (get_elem? fields 1) (get_elem? fields 2) (get_elem? fields 3)

tasks_found :
    (to_lowercase : Text → Text) (path : Text) (rows : List Row)
    → All IsListable rows
    → keep_if (runs to_lowercase path) (tasks_of (map row_cells rows))
      ≡ found_in to_lowercase path rows
tasks_found to_lowercase path [] h = refl
tasks_found to_lowercase path (short fields ∷ rows) ((few, _), h) =
    ap (λ o. keep_if (runs to_lowercase path) (add_some o (tasks_of (map row_cells rows))))
      (task_of_row-short fields few)
    ∙ tasks_found to_lowercase path rows h
tasks_found to_lowercase path (long r ∷ rows) ((named, _), h) =
    ap (λ o. keep_if (runs to_lowercase path) (add_some o (tasks_of (map row_cells rows))))
      (task_of_row-long r named)
    ∙ ap
        (λ l.
          if contains_text (to_lowercase path) (to_lowercase r.command) then task_in r ∷ l else l)
        (tasks_found to_lowercase path rows h)

row-IsRow : (row : Row) → IsListable row → IsRow (row_cells row)
row-IsRow (long r) (_, h) = h
row-IsRow (short fields) (_, h) = h

rows-IsRow : (rows : List Row) → All IsListable rows → All IsRow (map row_cells rows)
rows-IsRow [] h = tt
rows-IsRow (row ∷ rows) (a, h) = (row-IsRow row a, rows-IsRow rows h)

-- From a table that lists its tasks in quoted fields, with quotes in a field doubled, the search
-- for a configuration finds, in the table's order, the task of every row whose ninth column, the
-- command, has the configuration's path in it when both are put in small letters, and no other. Its
-- name is the second column without the backslashes in front, its next run the third, its status the
-- fourth. Rows with fewer than nine columns and the header are passed over. (No field has a line's
-- end, and no row is empty.)
pub tasks_for_config_lem :
    (to_lowercase : Text → Text) (header : List Text) (rows : List Row) (config_path : Text)
    → IsRow header
    → All IsListable rows
    → tasks_for_config to_lowercase (csv_table (header ∷ map row_cells rows)) config_path
      ≡ found_in to_lowercase config_path rows
tasks_for_config_lem to_lowercase header rows config_path h hs =
    tasks_for_config-rows to_lowercase header (map row_cells rows) config_path
      (h, rows-IsRow rows hs)
    ∙ tasks_found to_lowercase config_path rows hs
