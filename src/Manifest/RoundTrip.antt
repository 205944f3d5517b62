-- ===== src/Manifest/RoundTrip.antt =====
-- What is written to the manifest's file reads back.
use rustcopy.Base.{
  String, ◌≡◌, ◌∙◌, refl, sym, ap, true, false, some, List, [], ◌∷◌, ◌++◌, All, ok, ◌>>=◌,
  append-nil, append_assoc, nat_eq,
}
use rustcopy.Generations.{Generation, GenerationManifest, push}
use rustcopy.Text.{Text, trim, lines_from}
use rustcopy.Manifest.{
  Serde, Prints, File, clean_lines, load_lines, load_content, ndjson, ndjson_line, save, first_line,
  is_legacy_format, append_generation, load_or_default,
}
use rustcopy.Manifest.Lines.{clean-ndjson, load_lines-append, is_legacy_format-ndjson, bind_twice}

All-snoc {ℓ κ} :
    {A : Type ℓ} (P : A → Type κ) (xs : List A) (x : A) → All P xs → P x → All P (xs ++ (x ∷ []))
All-snoc P [] x h p = (p, tt)
All-snoc P (y ∷ xs) x (a, h) p = (a, All-snoc P xs x h p)

abbrev pub manifest_of : List Generation → GenerationManifest
manifest_of gs = record { generations = gs }

module _ (s : Serde) (path : String) where
  ndjson-append : (gs hs : List Generation) → ndjson s (gs ++ hs) ≡ ndjson s gs ++ ndjson s hs
  ndjson-append [] hs = refl
  ndjson-append (g ∷ gs) hs =
      ap (λ t. ndjson_line s g ++ t) (ndjson-append gs hs)
      ∙ sym (append_assoc (ndjson_line s g) (ndjson s gs) (ndjson s hs))

  -- A file of printed generations and more: the first line says what it is.
  pub load-ndjson :
      (g : Generation) (gs : List Generation) (rest : Text)
      → All (Prints s) (g ∷ gs)
      → load_or_default s path (some (ndjson s (g ∷ gs) ++ rest)) ≡ (
          load_lines s path (clean_lines rest) >>= λ more.
          ok (record { generations = (g ∷ gs) ++ more }))
  unfolding load_or_default
  load-ndjson g gs rest (h, hs) =
      ap (load_content s path (ndjson s (g ∷ gs) ++ rest)) (clean-ndjson s (g ∷ gs) rest (h, hs))
      ∙ simp h.reads_back (
          ap (λ r. r >>= λ found. ok (manifest_of found))
            (load_lines-append s path (g ∷ gs) (clean_lines rest) (h, hs))
          ∙ bind_twice (λ more. (g ∷ gs) ++ more) manifest_of
              (load_lines s path (clean_lines rest)))

  pub load-save_lem :
      (gs : List Generation)
      → All (Prints s) gs
      → load_or_default s path (save s (record { generations = gs }))
        ≡ ok (record { generations = gs })
  unfolding save load_or_default clean_lines lines_from load_lines
  load-save_lem [] h = refl
  load-save_lem (g ∷ gs) h =
      ap (λ t. load_or_default s path (some t)) (sym (append-nil (ndjson s (g ∷ gs))))
      ∙ load-ndjson g gs [] h
      ∙ ap (λ xs. ok (manifest_of (g ∷ xs))) (append-nil gs)

  pub saved-legacy :
      (gs : List Generation)
      → All (Prints s) gs
      → is_legacy_format s (save s (manifest_of gs)) ≡ false
  unfolding save is_legacy_format trim first_line
  saved-legacy [] h = refl
  saved-legacy (g ∷ gs) (h, hs) = is_legacy_format-ndjson s g (ndjson s gs) h

  append-saved :
      (gs : List Generation) (g : Generation)
      → All (Prints s) gs
      → append_generation s path (save s (manifest_of gs)) g
        ≡ ok (save s (manifest_of (gs ++ (g ∷ []))))
  unfolding append_generation save
  append-saved gs g h = rw (saved-legacy gs h) (
      ap (λ t. ok (some t))
        (ap (λ t. ndjson s gs ++ t) (sym (append-nil (ndjson_line s g)))
          ∙ sym (ndjson-append gs (g ∷ []))))

  -- A generation appended to a manifest's file is there when the file is next read, after those
  -- that were there: for a file that `save` wrote (or that appends did) and generations that
  -- serde_json prints as documented.
  pub load-append_generation :
      (gs : List Generation) (g : Generation)
      → All (Prints s) gs
      → Prints s g
      → (file : File) × (append_generation s path (save s (manifest_of gs)) g ≡ ok file)
        × (file ≡ save s (manifest_of (gs ++ (g ∷ []))))
        × (load_or_default s path file ≡ ok (push (manifest_of gs) g))
  load-append_generation gs g h k = (
    save s (manifest_of (gs ++ (g ∷ []))),
    append-saved gs g h,
    refl,
    load-save_lem (gs ++ (g ∷ [])) (All-snoc (Prints s) gs g h k),
  )

  -- A file of the old format that can be read is rewritten by an append, and then reads as its
  -- generations and the new one.
  pub append_generation-migrates :
      (content : Text) (gs : List Generation) (g : Generation)
      → is_legacy_format s (some content) ≡ true
      → load_or_default s path (some content) ≡ ok (manifest_of gs)
      → All (Prints s) gs
      → Prints s g
      → (file : File) × (append_generation s path (some content) g ≡ ok file)
        × (is_legacy_format s file ≡ false)
        × (load_or_default s path file ≡ ok (push (manifest_of gs) g))
  unfolding append_generation
  append_generation-migrates content gs g old reads h k = (
    save s (manifest_of (gs ++ (g ∷ []))),
    simp (old, reads),
    saved-legacy (gs ++ (g ∷ [])) (All-snoc (Prints s) gs g h k),
    load-save_lem (gs ++ (g ∷ [])) (All-snoc (Prints s) gs g h k),
  )
