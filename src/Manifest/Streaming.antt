-- ===== src/Manifest/Streaming.antt =====
-- Reading one generation of the manifest's file without the rest.
use rustcopy.Base.{
  String, ◌≡◌, ◌∙◌, refl, sym, ap, true, false, Option, none, some, List, [], ◌∷◌, ◌++◌, All, ok,
  ◌>>=◌, Option-cases, Bool-cases, inl, inr, nat_eq, string_eq, ◌==◌,
}
use rustcopy.Generations.{
  Generation, entry_of, find_last, latest, latest_full, full, backup_type_eq,
}
use rustcopy.Text.{Text, newline, trim, is_empty, OneLine}
use rustcopy.Manifest.{
  Serde, Prints, Wanted, ndjson, save, line_starts, for_each_entry, visit, read_winner,
  read_last_matching, load_latest_generation, load_latest_full_generation, load_or_default,
  first_line,
}
use rustcopy.Manifest.Lines.{first_line-line}
use rustcopy.Manifest.RoundTrip.{manifest_of, load-save_lem, saved-legacy}

rest_of_line :
    (t rest : Text)
    → OneLine t
    → line_starts false ((t ++ (newline ∷ [])) ++ rest) ≡ line_starts true rest
unfolding line_starts nat_eq
rest_of_line [] rest h = refl
rest_of_line (c ∷ t) rest (a, h) = rw a (rest_of_line t rest h)

whole_line :
    (t rest : Text)
    → OneLine t
    → is_empty t ≡ false
    → line_starts true ((t ++ (newline ∷ [])) ++ rest)
      ≡ ((t ++ (newline ∷ [])) ++ rest) ∷ line_starts true rest
unfolding line_starts
whole_line [] rest h e = cc
whole_line (c ∷ t) rest (a, h) e =
    rw a (ap (λ l. (c ∷ ((t ++ (newline ∷ [])) ++ rest)) ∷ l) (rest_of_line t rest h))

module _ (s : Serde) (path : String) (wanted : Wanted) where
  -- The offset of the last wanted generation.
  last_start : List Generation → Option Text → Option Text
  last_start [] winner = winner
  last_start (g ∷ gs) winner = last_start gs (visit wanted winner (ndjson s (g ∷ gs)) (entry_of g))

  at_line :
      (g : Generation) (gs : List Generation)
      → Prints s g
      → trim (first_line (ndjson s (g ∷ gs))) ≡ s.print g
  at_line g gs h = ap trim (first_line-line (s.print g) (ndjson s gs) h.one_line) ∙ h.no_blanks

  for_each_entry-ndjson :
      (gs : List Generation) (winner : Option Text)
      → All (Prints s) gs
      → for_each_entry s path wanted false winner (line_starts true (ndjson s gs))
        ≡ ok (last_start gs winner)
  unfolding for_each_entry line_starts last_start
  for_each_entry-ndjson [] winner h = refl
  for_each_entry-ndjson (g ∷ gs) winner (h, hs) =
      ap (for_each_entry s path wanted false winner)
        (whole_line (s.print g) (ndjson s gs) h.one_line h.not_empty)
      ∙ step
      ∙ for_each_entry-ndjson gs (visit wanted winner (ndjson s (g ∷ gs)) (entry_of g)) hs
    where
      step :
          for_each_entry s path wanted false winner
            (ndjson s (g ∷ gs) ∷ line_starts true (ndjson s gs))
          ≡ for_each_entry s path wanted false
              (visit wanted winner (ndjson s (g ∷ gs)) (entry_of g))
              (line_starts true (ndjson s gs))
      step = rw (at_line g gs h, h.not_empty, h.entry_reads_back, for_each_entry) refl

  read_winner-last_start :
      (gs : List Generation) (winner : Option Text)
      → All (Prints s) gs
      → read_winner s path (last_start gs winner) ≡ elim (find_last (λ g. wanted (entry_of g)) gs) [
        | some g ↦ ok (some g)
        | none ↦ read_winner s path winner
      ]
  unfolding last_start
  read_winner-last_start [] winner h = refl
  read_winner-last_start (g ∷ gs) winner (h, hs) =
      read_winner-last_start gs (visit wanted winner (ndjson s (g ∷ gs)) (entry_of g)) hs
      ∙ (elim (Option-cases (find_last (λ g. wanted (entry_of g)) gs)) [
        | inr (later, e) ↦ rw e refl
        | inl none_later ↦ elim (Bool-cases (wanted (entry_of g))) [
          | inr unwanted ↦ rw (none_later, unwanted) refl
          | inl is_wanted ↦ rw (none_later, is_wanted, at_line g gs h, h.reads_back) refl
        ]
      ])

  -- Of a saved manifest the streaming reader gives the last generation whose entry is wanted, as a
  -- full load would.
  pub read_last_matching_lem :
      (gs : List Generation)
      → All (Prints s) gs
      → read_last_matching s path wanted (save s (manifest_of gs)) ≡ (
          load_or_default s path (save s (manifest_of gs)) >>= λ m.
          ok (find_last (λ g. wanted (entry_of g)) m.generations))
  unfolding read_last_matching save
  read_last_matching_lem gs h = rw (saved-legacy s path gs h) (
      ap (λ r. r >>= read_winner s path) (for_each_entry-ndjson gs none h)
      ∙ read_winner-last_start gs none h
      ∙ settled (find_last (λ g. wanted (entry_of g)) gs)
      ∙ ap (λ r. r >>= λ m. ok (find_last (λ g. wanted (entry_of g)) m.generations))
          (sym (load-save_lem s path gs h)))
    where
      settled :
          (o : Option Generation)
          → elim o [ some g ↦ ok (some g) | none ↦ read_winner s path none ] ≡ ok o
      settled none = refl
      settled (some g) = refl

-- Of a saved manifest, the reference of an incremental run is the manifest's latest generation, and
-- that of a differential one its latest full generation.
pub load_latest_lem :
    (s : Serde) (path : String) (gs : List Generation)
    → All (Prints s) gs
    → (load_latest_generation s path (save s (manifest_of gs)) ≡ ok (latest (manifest_of gs)))
      × (load_latest_full_generation s path (save s (manifest_of gs))
          ≡ ok (latest_full (manifest_of gs)))
unfolding load_latest_generation load_latest_full_generation latest latest_full
load_latest_lem s path gs h = (
  read_last_matching_lem s path (λ _. true) gs h
      ∙ ap (λ r. r >>= λ m. ok (find_last (λ _. true) m.generations)) (load-save_lem s path gs h),
  read_last_matching_lem s path (λ entry. entry.backup_type == full) gs h
      ∙ ap (λ r. r >>= λ m. ok (find_last (λ g. g.backup_type == full) m.generations))
          (load-save_lem s path gs h),
)
