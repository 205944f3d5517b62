-- ===== src/Manifest/Interrupted.antt =====
-- What an interrupted append leaves behind.
use rustcopy.Base.{
  String, ◌≡◌, ◌∙◌, refl, sym, ap, false, none, some, List, [], ◌∷◌, ◌++◌, All, ok, ◌>>=◌,
  append-nil, append_assoc, nat_eq,
}
use rustcopy.Generations.{Generation}
use rustcopy.Text.{Text, newline, trim, is_empty, OneLine, lines_from}
use rustcopy.Manifest.{
  Serde, Prints, File, clean_lines, load_lines, ndjson, ndjson_line, append_generation,
  load_or_default, invalid_data,
}
use rustcopy.Manifest.Lines.{clean-ndjson, clean-tail, clean-line, is_legacy_format-ndjson}
use rustcopy.Manifest.RoundTrip.{manifest_of, load-ndjson}

OneLine-append : (t u : Text) → OneLine t → OneLine u → OneLine (t ++ u)
OneLine-append [] u h k = k
OneLine-append (c ∷ t) u (a, h) k = (a, OneLine-append t u h k)

module _ (s : Serde) (path : String) where
  load_lines-bad_last :
      (line : Text) → s.parse_generation line ≡ none → load_lines s path (line ∷ []) ≡ ok []
  unfolding load_lines
  load_lines-bad_last line bad = rw (bad, load_lines) refl

  load_lines-bad_inside :
      (line next : Text) (lines : List Text)
      → s.parse_generation line ≡ none
      → load_lines s path (line ∷ next ∷ lines) ≡ invalid_data path
  unfolding load_lines
  load_lines-bad_inside line next lines bad = rw (bad, load_lines) refl

  append-ndjson :
      (g : Generation) (rest : Text) (added : Generation)
      → Prints s g
      → append_generation s path (some (ndjson_line s g ++ rest)) added
        ≡ ok (some (ndjson_line s g ++ (rest ++ ndjson_line s added)))
  unfolding append_generation
  append-ndjson g rest added h =
      rw (is_legacy_format-ndjson s g rest h)
        (ap (λ t. ok (some t)) (append_assoc (ndjson_line s g) rest (ndjson_line s added)))

  load-torn :
      (g : Generation) (gs : List Generation) (torn : Text)
      → All (Prints s) (g ∷ gs)
      → load_lines s path (clean_lines torn) ≡ ok []
      → load_or_default s path (some (ndjson s (g ∷ gs) ++ torn)) ≡ ok (manifest_of (g ∷ gs))
  load-torn g gs torn h none_more =
      load-ndjson s path g gs torn h
      ∙ ap (λ r. r >>= λ more. ok (manifest_of ((g ∷ gs) ++ more))) none_more
      ∙ ap (λ xs. ok (manifest_of (g ∷ xs))) (append-nil gs)

  -- After an append that was interrupted in its line, the file reads as what was there before it:
  -- the rest of a line that does not parse is dropped.
  pub load-interrupted :
      (g : Generation) (gs : List Generation) (torn : Text)
      → All (Prints s) (g ∷ gs)
      → OneLine torn
      → is_empty (trim torn) ≡ false
      → s.parse_generation (trim torn) ≡ none
      → load_or_default s path (some (ndjson s (g ∷ gs) ++ torn)) ≡ ok (manifest_of (g ∷ gs))
  load-interrupted g gs torn h one blank bad =
      load-torn g gs torn h
        (ap (load_lines s path) (clean-tail torn one blank) ∙ load_lines-bad_last (trim torn) bad)

  -- The append that follows an interrupted one succeeds, writes behind the rest of the line, and
  -- the generation it records is not there when the file is next read; one more append succeeds
  -- too, and then the file cannot be read any more. (The rest of a line with a printed generation
  -- right behind it does not parse, as for every beginning of a JSON object.)
  pub append_generation-loses :
      (g : Generation) (gs : List Generation) (torn : Text) (lost next : Generation)
      → All (Prints s) (g ∷ gs)
      → OneLine torn
      → Prints s lost
      → Prints s next
      → is_empty (trim (torn ++ s.print lost)) ≡ false
      → s.parse_generation (trim (torn ++ s.print lost)) ≡ none
      → (file after : File) × (append_generation s path (some (ndjson s (g ∷ gs) ++ torn)) lost
          ≡ ok file)
        × (load_or_default s path file ≡ ok (manifest_of (g ∷ gs)))
        × (append_generation s path file next ≡ ok after)
        × (load_or_default s path after ≡ invalid_data path)
  unfolding clean_lines lines_from
  append_generation-loses g gs torn lost next (h, hs) one k n blank bad = (
    some (ndjson s (g ∷ gs) ++ merged),
    some (ndjson s (g ∷ gs) ++ (merged ++ ndjson_line s next)),
    appended torn lost,
    load-torn g gs merged (h, hs)
        (ap (λ t. load_lines s path (clean_lines t)) (sym (append-nil merged))
          ∙ ap (load_lines s path) (lines_of [])
          ∙ load_lines-bad_last (trim (torn ++ s.print lost)) bad),
    appended merged next,
    load-ndjson s path g gs (merged ++ ndjson_line s next) (h, hs)
        ∙ ap (λ ls. load_lines s path ls >>= λ more. ok (manifest_of ((g ∷ gs) ++ more)))
            (lines_of (ndjson_line s next) ∙ ap (λ ls. trim (torn ++ s.print lost) ∷ ls) next_line)
        ∙ ap (λ r. r >>= λ more. ok (manifest_of ((g ∷ gs) ++ more)))
            (load_lines-bad_inside (trim (torn ++ s.print lost)) (s.print next) [] bad),
  )
    where
      merged : Text
      merged = torn ++ ndjson_line s lost

      appended :
          (rest : Text) (added : Generation)
          → append_generation s path (some (ndjson s (g ∷ gs) ++ rest)) added
            ≡ ok (some (ndjson s (g ∷ gs) ++ (rest ++ ndjson_line s added)))
      appended rest added =
          ap (λ t. append_generation s path (some t) added)
            (append_assoc (ndjson_line s g) (ndjson s gs) rest)
          ∙ append-ndjson g (ndjson s gs ++ rest) added h
          ∙ ap (λ t. ok (some t))
              (ap (λ t. ndjson_line s g ++ t)
                  (append_assoc (ndjson s gs) rest (ndjson_line s added))
                ∙ sym (append_assoc (ndjson_line s g) (ndjson s gs) (rest ++ ndjson_line s added)))

      lines_of :
          (rest : Text)
          → clean_lines (merged ++ rest) ≡ trim (torn ++ s.print lost) ∷ clean_lines rest
      lines_of rest =
          ap (λ t. clean_lines (t ++ rest)) (sym (append_assoc torn (s.print lost) (newline ∷ [])))
          ∙ clean-line (torn ++ s.print lost) rest
              (OneLine-append torn (s.print lost) one k.one_line) blank

      next_line : clean_lines (ndjson_line s next) ≡ s.print next ∷ []
      next_line =
          ap clean_lines
            (sym (append-nil (ndjson_line s next)) ∙ sym (append-nil (ndjson_line s next ++ [])))
          ∙ clean-ndjson s (next ∷ []) [] (n, tt)
