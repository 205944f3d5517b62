-- ===== src/Schedule/Listing.antt =====
-- A table of tasks in quoted fields is read as it was written.
use rustcopy.Base.{
  ℕ, eq_of_test, ◌≡◌, refl, ◌∙◌, sym, ap, true, false, List, [], ◌∷◌, ◌++◌, ◌==◌, nat_eq,
  if◌then◌else◌, Bool-cases, inl, inr, append_assoc, append-nil, All, keep_if, map, drop, arith,
}
use rustcopy.Text.{Text, newline, OneLine}
use rustcopy.Schedule.{quote}
use rustcopy.Schedule.Tasks.{
  lines_of, peeks_quote, csv_from, parse_csv_line, without_return, tasks_of, parse_scheduled_tasks,
  runs, tasks_for_config,
}

-- A quote in a field is written twice.
abbrev pub doubled : Text → Text
doubled [] = []
doubled (c ∷ t) = let rest = doubled t in if c == quote then quote ∷ quote ∷ rest else c ∷ rest

abbrev pub csv_field : Text → Text
csv_field field = quote ∷ (doubled field ++ (quote ∷ []))

abbrev pub csv_line : List Text → Text
csv_line [] = []
csv_line (field ∷ []) = csv_field field
csv_line (field ∷ next ∷ fields) = csv_field field ++ (b',' ∷ csv_line (next ∷ fields))

-- A table with a header, each line with a carriage return.
abbrev pub csv_table : List (List Text) → Text
csv_table [] = []
csv_table (row ∷ rows) = csv_line row ++ (13 ∷ newline ∷ csv_table rows)

read_field :
    (current field rest : Text)
    → peeks_quote rest ≡ false
    → csv_from false true current (doubled field ++ (quote ∷ rest))
      ≡ csv_from false false (current ++ field) rest
unfolding csv_from nat_eq
read_field current [] rest h =
    rw (h, csv_from) (ap (λ c. csv_from false false c rest) (sym (append-nil current)))
read_field current (c ∷ field) rest h =
    let more =
      read_field (current ++ (c ∷ [])) field rest h
      ∙ ap (λ t. csv_from false false t rest) (append_assoc current (c ∷ []) field) in
    elim (Bool-cases (c == quote)) [
      | inl quoted ↦ rw quoted (
          ap (λ d. csv_from false true (current ++ (d ∷ [])) (doubled field ++ (quote ∷ rest)))
            (sym (eq_of_test c quote quoted))
          ∙ more)
      | inr plain ↦ rw plain (rw (plain, csv_from) more)
    ]

csv_field-read :
    (field rest : Text)
    → peeks_quote rest ≡ false
    → csv_from false false [] (csv_field field ++ rest) ≡ csv_from false false field rest
unfolding csv_from nat_eq
csv_field-read field rest h =
    ap (λ t. csv_from false true [] t) (append_assoc (doubled field) (quote ∷ []) rest)
    ∙ read_field [] field rest h

-- Every list of fields is read back from its line, whatever the fields hold.
parse-csv_line :
    (field : Text) (fields : List Text)
    → parse_csv_line (csv_line (field ∷ fields)) ≡ field ∷ fields
unfolding csv_from nat_eq
parse-csv_line field [] =
    ap (csv_from false false []) (sym (append-nil (csv_field field))) ∙ csv_field-read field [] refl
parse-csv_line field (next ∷ fields) =
    csv_field-read field (b',' ∷ csv_line (next ∷ fields)) refl
    ∙ ap (λ l. field ∷ l) (parse-csv_line next fields)

-- A row with a field at least, none of which has a line's end.
abbrev pub IsRow : List Text → Type 0
IsRow [] = ⊥
IsRow (field ∷ fields) = All OneLine (field ∷ fields)

OneLine-append : (a b : Text) → OneLine a → OneLine b → OneLine (a ++ b)
OneLine-append [] b h k = k
OneLine-append (c ∷ a) b (h, hs) k = (h, OneLine-append a b hs k)

OneLine-doubled : (field : Text) → OneLine field → OneLine (doubled field)
unfolding nat_eq
OneLine-doubled [] h = tt
OneLine-doubled (c ∷ field) (h, hs) = elim (Bool-cases (c == quote)) [
  | inl quoted ↦ rw quoted (refl, (refl, OneLine-doubled field hs))
  | inr plain ↦ rw plain (h, OneLine-doubled field hs)
]

OneLine-csv_field : (field : Text) → OneLine field → OneLine (csv_field field)
unfolding nat_eq
OneLine-csv_field field h =
    (refl, OneLine-append (doubled field) (quote ∷ []) (OneLine-doubled field h) (refl, tt))

OneLine-csv_line : (row : List Text) → All OneLine row → OneLine (csv_line row)
unfolding nat_eq
OneLine-csv_line [] h = tt
OneLine-csv_line (field ∷ []) (h, hs) = OneLine-csv_field field h
OneLine-csv_line (field ∷ next ∷ fields) (h, hs) =
    OneLine-append (csv_field field) (b',' ∷ csv_line (next ∷ fields)) (OneLine-csv_field field h)
      (refl, OneLine-csv_line (next ∷ fields) hs)

without_return-append : (line : Text) → without_return (line ++ (13 ∷ [])) ≡ line
unfolding nat_eq
without_return-append [] = refl
without_return-append (c ∷ []) = ground arith
without_return-append (c ∷ d ∷ line) = ground (arith, without_return-append (d ∷ line))

lines_of-read :
    (line : Text) (c : ℕ) (t : Text)
    → (c == newline) ≡ false
    → lines_of line (c ∷ t) ≡ lines_of (line ++ (c ∷ [])) t
lines_of-read line c t h = unfold lines_of in rw (h, lines_of) refl

lines_of-append :
    (line t rest : Text) → OneLine t → lines_of line (t ++ rest) ≡ lines_of (line ++ t) rest
lines_of-append line [] rest h = ap (λ l. lines_of l rest) (sym (append-nil line))
lines_of-append line (c ∷ t) rest (h, hs) =
    lines_of-read line c (t ++ rest) h
    ∙ lines_of-append (line ++ (c ∷ [])) t rest hs
    ∙ ap (λ l. lines_of l rest) (append_assoc line (c ∷ []) t)

table_line :
    (line rest : Text)
    → OneLine line
    → lines_of [] (line ++ (13 ∷ newline ∷ rest)) ≡ line ∷ lines_of [] rest
unfolding nat_eq
table_line line rest h =
    ap (lines_of []) (sym (append_assoc line (13 ∷ []) (newline ∷ rest)))
    ∙ lines_of-append [] (line ++ (13 ∷ [])) (newline ∷ rest)
        (OneLine-append line (13 ∷ []) h (refl, tt))
    ∙ unfold lines_of in ap (λ l. l ∷ lines_of [] rest) (without_return-append line)

table_rows :
    (rows : List (List Text))
    → All IsRow rows
    → map parse_csv_line (lines_of [] (csv_table rows)) ≡ rows
table_rows [] h = unfold lines_of in refl
table_rows ([] ∷ rows) (h, hs) = absurd h
table_rows ((field ∷ fields) ∷ rows) (h, hs) =
    ap (map parse_csv_line) (
      table_line (csv_line (field ∷ fields)) (csv_table rows) (OneLine-csv_line (field ∷ fields) h))
    ∙ ap (λ l. l ∷ map parse_csv_line (lines_of [] (csv_table rows))) (parse-csv_line field fields)
    ∙ ap (λ ls. (field ∷ fields) ∷ ls) (table_rows rows hs)

map-drop : (f : Text → List Text) (lines : List Text) → map f (drop 1 lines) ≡ drop 1 (map f lines)
map-drop f [] = refl
map-drop f (line ∷ lines) = refl

-- The search in a table is the filter of the rows' tasks.
pub tasks_for_config-rows :
    (to_lowercase : Text → Text) (header : List Text) (rows : List (List Text)) (config_path : Text)
    → All IsRow (header ∷ rows)
    → tasks_for_config to_lowercase (csv_table (header ∷ rows)) config_path
      ≡ keep_if (runs to_lowercase config_path) (tasks_of rows)
unfolding tasks_for_config parse_scheduled_tasks
tasks_for_config-rows to_lowercase header rows config_path h =
    ap (λ rs. keep_if (runs to_lowercase config_path) (tasks_of rs))
      (map-drop parse_csv_line (lines_of [] (csv_table (header ∷ rows)))
        ∙ ap (drop 1) (table_rows (header ∷ rows) h))
