-- ===== src/Examples/Tasks.antt =====
-- A list of scheduled tasks at concrete inputs.
use rustcopy.Base.{◌≡◌, refl, List, [], ◌∷◌, map, All, arith, nat_eq}
use rustcopy.Strings.{codes, ascii_lower}
use rustcopy.Text.{Text}
use rustcopy.Schedule.Tasks.{tasks_for_config}
use rustcopy.Schedule.Listing.{csv_table, IsRow}
use rustcopy.Schedule.TaskRows.{
  TaskRow, Row, long, short, row_cells, IsListable, found_in, tasks_for_config_lem,
}

abbrev small_letters : Text → Text
small_letters t = map ascii_lower t

abbrev header : List Text
header =
    codes "A"
    ∷ codes "B"
    ∷ codes "C"
    ∷ codes "D"
    ∷ codes "E"
    ∷ codes "F"
    ∷ codes "G"
    ∷ codes "H"
    ∷ codes "I"
    ∷ []

header-IsRow : IsRow header
unfolding nat_eq
header-IsRow = (
  (refl, tt),
  (
    (refl, tt),
    (
      (refl, tt),
      ((refl, tt), ((refl, tt), ((refl, tt), ((refl, tt), ((refl, tt), ((refl, tt), tt)))))),
    ),
  ),
)

abbrev nightly : List Text
nightly =
    codes "PC"
    ∷ codes "\\Sera"
    ∷ codes "22:00"
    ∷ codes "Pronta"
    ∷ codes ""
    ∷ codes ""
    ∷ codes ""
    ∷ codes ""
    ∷ codes "r \"C:/R.toml\""
    ∷ []

nightly-IsRow : IsRow nightly
unfolding nat_eq
nightly-IsRow = (
  (refl, (refl, tt)),
  (
    (refl, (refl, (refl, (refl, (refl, tt))))),
    (
      (refl, (refl, (refl, (refl, (refl, tt))))),
      (
        (refl, (refl, (refl, (refl, (refl, (refl, tt)))))),
        (
          tt,
          (
            tt,
            (
              tt,
              (
                tt,
                (
                  (
                    refl,
                    (
                      refl,
                      (
                        refl,
                        (
                          refl,
                          (
                            refl,
                            (refl, (refl, (refl, (refl, (refl, (refl, (refl, (refl, tt)))))))),
                          ),
                        ),
                      ),
                    ),
                  ),
                  tt,
                ),
              ),
            ),
          ),
        ),
      ),
    ),
  ),
)

abbrev other : List Text
other =
    codes "PC"
    ∷ codes "\\Altro"
    ∷ codes "N/D"
    ∷ codes "Pronta"
    ∷ codes ""
    ∷ codes ""
    ∷ codes ""
    ∷ codes ""
    ∷ codes "notepad"
    ∷ []

other-IsRow : IsRow other
unfolding nat_eq
other-IsRow = (
  (refl, (refl, tt)),
  (
    (refl, (refl, (refl, (refl, (refl, (refl, tt)))))),
    (
      (refl, (refl, (refl, tt))),
      (
        (refl, (refl, (refl, (refl, (refl, (refl, tt)))))),
        (tt, (tt, (tt, (tt, ((refl, (refl, (refl, (refl, (refl, (refl, (refl, tt))))))), tt))))),
      ),
    ),
  ),
)

abbrev nightly_row : TaskRow
nightly_row = record {
  host = codes "PC";
  slashes = 1;
  name = codes "Sera";
  next_run = codes "22:00";
  status = codes "Pronta";
  logon_mode = [];
  last_run = [];
  last_result = [];
  author = [];
  command = codes "r \"C:/R.toml\"";
  more = [];
}

abbrev other_row : TaskRow
other_row = record {
  host = codes "PC";
  slashes = 1;
  name = codes "Altro";
  next_run = codes "N/D";
  status = codes "Pronta";
  logon_mode = [];
  last_run = [];
  last_result = [];
  author = [];
  command = codes "notepad";
  more = [];
}

-- A task, another task, and a row of one column.
abbrev three_rows : List Row
three_rows = long nightly_row ∷ long other_row ∷ short (codes "PC" ∷ []) ∷ []

three_rows-IsListable : All IsListable three_rows
unfolding nat_eq
three_rows-IsListable =
    ((refl, nightly-IsRow), ((refl, other-IsRow), ((omega arith, ((refl, (refl, tt)), tt)), tt)))

tasks_for_config_example :
    tasks_for_config small_letters
      (csv_table (header ∷ map row_cells three_rows))
      (codes "c:/r.toml")
    ≡ found_in small_letters (codes "c:/r.toml") three_rows
tasks_for_config_example =
    tasks_for_config_lem small_letters header three_rows (codes "c:/r.toml") header-IsRow
      three_rows-IsListable
