-- ===== src/Examples/Manifests.antt =====
-- The manifest's file, the run history and the accounting at concrete inputs, with a reader and a
-- printer of one digit.
use rustcopy.Base.{
  map, ok, err, ◌++◌, nat_eq, ℕ, ◌+◌, ◌-◌, ◌≡◌, refl, true, false, Option, none, some, List, [],
  ◌∷◌, arith, leb, ◌&&◌, if◌then◌else◌,
}
use rustcopy.Generations.{latest, latest_full, entry_of, Generation, push, full}
use rustcopy.Text.{Text, newline, trim, is_empty, lines_from, OneLine}
use rustcopy.Manifest.{
  load_latest_generation, load_latest_full_generation, Serde, Prints, File, ndjson, save,
  is_legacy_format, append_generation, load_or_default, invalid_data, clean_lines, first_line,
}
use rustcopy.Manifest.RoundTrip.{manifest_of, load-append_generation, append_generation-migrates}
use rustcopy.Manifest.Interrupted.{append_generation-loses}
use rustcopy.Manifest.Streaming.{load_latest_lem}
use rustcopy.Progress.{Call, add_bytes, add_file, observe_total_bytes, reset, set_current_file}
use rustcopy.Errors.{io, ErrorKind}
use rustcopy.RunHistory.{RunHistory, read_from}
use rustcopy.RunHistory.Window.{last_n, parsed, unparsed, read_from_lem}

abbrev numbered : ℕ → Generation
numbered n = record {
  id = "x";
  backup_type = full;
  created_at = "then";
  files_copied = n;
  files = [];
}

-- "7" is the seventh generation, and "{" begins a file of the old format with none.
abbrev parse_digit : Text → Option ℕ
parse_digit (c ∷ []) = if leb 48 c && leb c 57 then some (c - 48) else none
parse_digit _ = none

abbrev digits : Serde
digits = record {
  parse_generation = λ t. elim (parse_digit t) [ some n ↦ some (numbered n) | none ↦ none ];
  parse_entry = λ t. elim (parse_digit t) [ some n ↦ some (entry_of (numbered n)) | none ↦ none ];
  parse_manifest = λ t. some (manifest_of []);
  print = λ g. (48 + g.files_copied) ∷ [];
}

numbered-Prints_one : Prints digits (numbered 1)
unfolding nat_eq trim
numbered-Prints_one = record {
  one_line = (refl, tt);
  no_blanks = refl;
  not_empty = refl;
  reads_back = refl;
  entry_reads_back = refl;
}

numbered-Prints_two : Prints digits (numbered 2)
unfolding nat_eq trim
numbered-Prints_two = record {
  one_line = (refl, tt);
  no_blanks = refl;
  not_empty = refl;
  reads_back = refl;
  entry_reads_back = refl;
}

numbered-Prints_three : Prints digits (numbered 3)
unfolding nat_eq trim
numbered-Prints_three = record {
  one_line = (refl, tt);
  no_blanks = refl;
  not_empty = refl;
  reads_back = refl;
  entry_reads_back = refl;
}

load-append_generation_example :
    (file : File) × (append_generation digits "m"
        (save digits (manifest_of (numbered 1 ∷ [])))
        (numbered 2)
      ≡ ok file)
    × (file ≡ save digits (manifest_of (numbered 1 ∷ numbered 2 ∷ [])))
    × (load_or_default digits "m" file ≡ ok (push (manifest_of (numbered 1 ∷ [])) (numbered 2)))
load-append_generation_example =
    load-append_generation digits "m" (numbered 1 ∷ []) (numbered 2) (numbered-Prints_one, tt)
      numbered-Prints_two

-- "{" on a line of its own
abbrev old_file : Text
old_file = 123 ∷ newline ∷ 125 ∷ []

old_file-legacy : is_legacy_format digits (some old_file) ≡ true
unfolding is_legacy_format first_line trim nat_eq
old_file-legacy = refl

old_file-loads : load_or_default digits "m" (some old_file) ≡ ok (manifest_of [])
unfolding load_or_default clean_lines lines_from trim nat_eq
old_file-loads = refl

append_generation-migrates_example :
    (file : File) × (append_generation digits "m" (some old_file) (numbered 2) ≡ ok file)
    × (is_legacy_format digits file ≡ false)
    × (load_or_default digits "m" file ≡ ok (push (manifest_of []) (numbered 2)))
append_generation-migrates_example =
    append_generation-migrates digits "m" old_file [] (numbered 2) old_file-legacy old_file-loads tt
      numbered-Prints_two

-- "{" and no end of the line
abbrev torn : Text
torn = 123 ∷ []

torn-OneLine : OneLine torn
unfolding nat_eq
torn-OneLine = (refl, tt)

torn-not_blank : is_empty (trim torn) ≡ false
unfolding trim nat_eq
torn-not_blank = refl

torn-bad : digits.parse_generation (trim torn) ≡ none
unfolding trim nat_eq
torn-bad = refl

merged-not_blank : is_empty (trim (torn ++ digits.print (numbered 2))) ≡ false
unfolding trim nat_eq
merged-not_blank = refl

merged-bad : digits.parse_generation (trim (torn ++ digits.print (numbered 2))) ≡ none
unfolding trim nat_eq
merged-bad = refl

append_generation-loses_example :
    (file after : File) × (append_generation digits "m"
        (some (ndjson digits (numbered 1 ∷ []) ++ torn))
        (numbered 2)
      ≡ ok file)
    × (load_or_default digits "m" file ≡ ok (manifest_of (numbered 1 ∷ [])))
    × (append_generation digits "m" file (numbered 3) ≡ ok after)
    × (load_or_default digits "m" after ≡ invalid_data "m")
append_generation-loses_example =
    append_generation-loses digits "m" (numbered 1) [] torn (numbered 2) (numbered 3)
      (numbered-Prints_one, tt) torn-OneLine numbered-Prints_two numbered-Prints_three
      merged-not_blank merged-bad

abbrev three_runs : List Text
three_runs = (49 ∷ []) ∷ (50 ∷ []) ∷ [] ∷ (123 ∷ []) ∷ (51 ∷ []) ∷ []

read_from_example :
    ((history : RunHistory ℕ) × (read_from parse_digit 2 (map ok three_runs) ≡ ok history)
      × (history.records ≡ last_n 2 (parsed parse_digit three_runs))
      × (history.skipped_lines ≡ unparsed parse_digit three_runs))
    × (read_from parse_digit 2 (map ok three_runs ++ (err (io "h" ErrorKind.other_kind) ∷ []))
        ≡ err (io "h" ErrorKind.other_kind))
read_from_example =
    read_from_lem parse_digit 2 three_runs (io "h" ErrorKind.other_kind) [] (omega arith)

abbrev two_saved : List Generation
two_saved = numbered 1 ∷ numbered 2 ∷ []

load_latest_example :
    (load_latest_generation digits "m" (save digits (manifest_of two_saved))
      ≡ ok (latest (manifest_of two_saved)))
    × (load_latest_full_generation digits "m" (save digits (manifest_of two_saved))
        ≡ ok (latest_full (manifest_of two_saved)))
load_latest_example =
    load_latest_lem digits "m" two_saved (numbered-Prints_one, (numbered-Prints_two, tt))

abbrev sink_calls : List Call
sink_calls =
    add_bytes 5 ∷ reset ∷ set_current_file "a" ∷ add_bytes 7 ∷ add_file ∷ observe_total_bytes 9 ∷ []
