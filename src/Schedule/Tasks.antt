-- ===== src/Schedule/Tasks.antt =====
-- The tasks that schtasks lists: `parse_csv_line`, `parse_scheduled_tasks` and the searches over
-- them, of crates/rustcopy-core/src/schedule.rs. Unicode's table of small letters is a parameter.
use rustcopy.Base.{
  Bool, true, false, not, ◌&&◌, Option, none, some, List, [], ◌∷◌, ◌++◌, map, keep_if, ◌==◌, nat_eq,
  get_elem?, drop, if◌then◌else◌,
}
use rustcopy.Strings.{contains_text}
use rustcopy.Text.{Text, newline, is_empty}
use rustcopy.Schedule.{quote, backslash}

pub record ScheduledTask : Type 0 where
  pub name : Text
  pub command : Text
  pub next_run : Text
  pub status : Text
  pub trigger : Text
  pub disabled : Bool

-- `chars.peek() == Some(&'"')`
abbrev pub peeks_quote : Text → Bool
peeks_quote [] = false
peeks_quote (c ∷ t) = c == quote

-- The fields of a line, from a character on: whether it has been read already, whether it is in
-- quotes, and the field so far.
unfoldable pub csv_from : Bool → Bool → Text → Text → List Text
csv_from skipped in_quotes current [] = current ∷ []
csv_from true in_quotes current (c ∷ t) = csv_from false in_quotes current t
csv_from false in_quotes current (c ∷ t) = elim (c == quote) [
  | true ↦ elim (in_quotes && peeks_quote t) [
    | true ↦ csv_from true in_quotes (current ++ (quote ∷ [])) t
    | false ↦ csv_from false (not in_quotes) current t
  ]
  | false ↦ elim (not in_quotes && c == b',') [
    | true ↦ current ∷ csv_from false in_quotes [] t
    | false ↦ csv_from false in_quotes (current ++ (c ∷ [])) t
  ]
]

abbrev pub parse_csv_line : Text → List Text
parse_csv_line line = csv_from false false [] line

-- A line without the carriage return at its end.
abbrev pub without_return : Text → Text
without_return [] = []
without_return (c ∷ t) =
    let rest = without_return t in if c == 13 && is_empty t then [] else c ∷ rest

-- `csv.lines()`, from a line that has been begun: a carriage return goes with the newline behind it
-- only.
unfoldable pub lines_of : Text → Text → List Text
lines_of line [] = if is_empty line then [] else line ∷ []
lines_of line (c ∷ t) = elim (c == newline) [
  | true ↦ without_return line ∷ lines_of [] t
  | false ↦ lines_of (line ++ (c ∷ [])) t
]

-- `trim_start_matches('\\')`
abbrev pub without_backslashes : Text → Text
without_backslashes [] = []
without_backslashes (c ∷ t) =
    let rest = without_backslashes t in if c == backslash then rest else c ∷ t

abbrev pub task_of : Option Text → Option Text → Option Text → Option Text → Option ScheduledTask
task_of (some name) (some next_run) (some status) (some command) = some (record {
  name = without_backslashes name;
  command = command;
  next_run = next_run;
  status = status;
  trigger = [];
  disabled = false;
})
task_of _ _ _ _ = none

-- The task of a row, by the places of its columns.
unfoldable pub task_of_row : List Text → Option ScheduledTask
task_of_row fields =
    task_of (get_elem? fields 1) (get_elem? fields 2) (get_elem? fields 3) (get_elem? fields 8)

abbrev pub add_some {ℓ} : {A : Type ℓ} → Option A → List A → List A
add_some none xs = xs
add_some (some x) xs = x ∷ xs

-- `filter_map` over the rows
abbrev pub tasks_of : List (List Text) → List ScheduledTask
tasks_of [] = []
tasks_of (row ∷ rows) = add_some (task_of_row row) (tasks_of rows)

unfoldable pub parse_scheduled_tasks : Text → List ScheduledTask
parse_scheduled_tasks csv = tasks_of (map parse_csv_line (drop 1 (lines_of [] csv)))

module _ (to_lowercase : Text → Text) where
  abbrev pub runs : Text → ScheduledTask → Bool
  runs path task = contains_text (to_lowercase path) (to_lowercase task.command)

  unfoldable pub tasks_for_config : Text → Text → List ScheduledTask
  tasks_for_config csv config_path = keep_if (runs config_path) (parse_scheduled_tasks csv)

  unfoldable pub tasks_referencing : Text → Text → List Text
  tasks_referencing csv config_path = map (λ task. task.name) (tasks_for_config csv config_path)
