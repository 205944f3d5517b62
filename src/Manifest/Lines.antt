-- ===== src/Manifest/Lines.antt =====
-- The lines of a manifest's file.
use rustcopy.Base.{
  String, ◌≡◌, ◌∙◌, refl, ap, false, not, some, List, [], ◌∷◌, ◌++◌, map, keep_if, All, ok, err,
  Result, ◌>>=◌, Result-cases, inl, inr, arith, append_assoc, nat_eq,
}
use rustcopy.Generations.{Generation}
use rustcopy.Text.{
  Text, newline, trim, is_empty, lines_from, OneLine, lines_from-append, lines_from-newline,
  lines_from-end, trim_nil,
}
use rustcopy.Manifest.{
  Serde, Prints, clean_lines, load_lines, ndjson, ndjson_line, first_line, is_legacy_format,
}

-- A line that is not ended.
pub clean-tail : (t : Text) → OneLine t → is_empty (trim t) ≡ false → clean_lines t ≡ trim t ∷ []
unfolding clean_lines
clean-tail [] h blank = cc (trim_nil, blank)
clean-tail (c ∷ t) h blank =
    ap (λ ls. keep_if (λ line. not (is_empty line)) (map trim ls)) (lines_from-end c t h)
    ∙ ground (arith, blank)

-- A line that is ended.
pub clean-line :
    (t rest : Text)
    → OneLine t
    → is_empty (trim t) ≡ false
    → clean_lines ((t ++ (newline ∷ [])) ++ rest) ≡ trim t ∷ clean_lines rest
unfolding clean_lines
clean-line t rest h blank =
    ap (λ ls. keep_if (λ line. not (is_empty line)) (map trim ls)) the_lines ∙ ground (arith, blank)
  where
    the_lines : lines_from [] ((t ++ (newline ∷ [])) ++ rest) ≡ t ∷ lines_from [] rest
    the_lines =
        ap (lines_from []) (append_assoc t (newline ∷ []) rest)
        ∙ lines_from-append [] t (newline ∷ rest) h
        ∙ lines_from-newline t rest

pub first_line-line : (t rest : Text) → OneLine t → first_line ((t ++ (newline ∷ [])) ++ rest) ≡ t
unfolding first_line nat_eq
first_line-line [] rest h = refl
first_line-line (c ∷ t) rest (a, h) = rw (a, first_line-line t rest h) refl

pub bind_twice {ℓ κ} :
    {E : Type κ} {A B C : Type ℓ} (f : A → B) (g : B → C) (r : Result E A)
    → ((r >>= λ a. ok (f a)) >>= λ b. ok (g b)) ≡ (r >>= λ a. ok (g (f a)))
bind_twice f g (ok a) = refl
bind_twice f g (err e) = refl

module _ (s : Serde) where
  pub clean-ndjson :
      (gs : List Generation) (rest : Text)
      → All (Prints s) gs
      → clean_lines (ndjson s gs ++ rest) ≡ map s.print gs ++ clean_lines rest
  clean-ndjson [] rest h = refl
  clean-ndjson (g ∷ gs) rest (h, hs) =
      ap clean_lines (append_assoc (ndjson_line s g) (ndjson s gs) rest)
      ∙ clean-line (s.print g) (ndjson s gs ++ rest) h.one_line
          (ap is_empty h.no_blanks ∙ h.not_empty)
      ∙ ap (λ l. l ∷ clean_lines (ndjson s gs ++ rest)) h.no_blanks
      ∙ ap (λ ls. s.print g ∷ ls) (clean-ndjson gs rest hs)

  pub load_lines-append :
      (path : String) (gs : List Generation) (ls : List Text)
      → All (Prints s) gs
      → load_lines s path (map s.print gs ++ ls)
        ≡ (load_lines s path ls >>= λ more. ok (gs ++ more))
  unfolding load_lines
  load_lines-append path [] ls h = elim (Result-cases (load_lines s path ls)) [
    | inl (more, e) ↦ rw e refl
    | inr (e, p) ↦ rw p refl
  ]
  load_lines-append path (g ∷ gs) ls (h, hs) =
      simp (h.reads_back, load_lines-append path gs ls hs)
        (bind_twice (λ more. gs ++ more) (λ more. g ∷ more) (load_lines s path ls))

  -- A file that starts with a printed generation is not the old format.
  pub is_legacy_format-ndjson :
      (g : Generation) (rest : Text)
      → Prints s g
      → is_legacy_format s (some (ndjson_line s g ++ rest)) ≡ false
  unfolding is_legacy_format
  is_legacy_format-ndjson g rest h =
      rw (first_line-line (s.print g) rest h.one_line)
        (simp (h.no_blanks, h.not_empty, h.reads_back))
