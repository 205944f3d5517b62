-- ===== src/RunHistory/Window.antt =====
-- What the reader keeps of a history: the last records, in order.
use rustcopy.Base.{
  map, Result, ok, err, ℕ, ◌⊎◌, suc, ◌+◌, ◌-◌, ◌≤◌, ◌<◌, ◌≡◌, ◌∙◌, refl, sym, ap, true, Option,
  none, some, List, [], ◌∷◌, ◌++◌, length, length-append, drop, ◌==◌, nat_eq, ltb, if◌then◌else◌,
  Bool-cases, Option-cases, inl, inr, arith, append_assoc, append-nil, eq_of_test,
}
use rustcopy.Text.{Text, trim, is_empty}
use rustcopy.Errors.{IngestError}
use rustcopy.RunHistory.{RunHistory, pop_front, push_record, read_line, read_lines, read_from}

module _ {ℓ} {A : Type ℓ} where
  -- The last `n` of a list.
  abbrev pub last_n : ℕ → List A → List A
  last_n n xs = drop (length xs - n) xs

  drop_of : (k n : ℕ) (xs : List A) → k ≡ n → drop k xs ≡ drop n xs
  drop_of k n xs e = ap (λ m. drop m xs) e

  last_n-cons : (n : ℕ) (x : A) (xs : List A) → n ≤ length xs → last_n n (x ∷ xs) ≡ last_n n xs
  last_n-cons n x xs h =
      drop_of (suc (length xs) - n) (suc (length xs - n)) (x ∷ xs) (omega (arith, h))

  last_n_all : (n : ℕ) (xs : List A) → length xs ≤ n → last_n n xs ≡ xs
  last_n_all n xs h = drop_of (length xs - n) 0 xs (omega (arith, h))

  -- What the lines hold: the records of those that parse, and how many of the others are not blank.
  abbrev pub parsed : (Text → Option A) → List Text → List A
  parsed parse [] = []
  parsed parse (line ∷ lines) =
      let rest = parsed parse lines in
      if is_empty (trim line)
      then rest
      else elim (parse (trim line)) [ some r ↦ r ∷ rest | none ↦ rest ]

  abbrev pub unparsed : (Text → Option A) → List Text → ℕ
  unparsed parse [] = 0
  unparsed parse (line ∷ lines) =
      let rest = unparsed parse lines in
      if is_empty (trim line)
      then rest
      else elim (parse (trim line)) [ some r ↦ rest | none ↦ suc rest ]

  -- Below the limit the record is added; at the limit the oldest one goes.
  push_record-cases :
      (limit : ℕ) (window : List A) (r : A)
      → 0 < limit
      → length window ≤ limit
      → ((push_record limit window r ≡ window ++ (r ∷ [])) × (length window < limit))
        ⊎ ((w : A) × (ws : List A) × (window ≡ w ∷ ws)
            × (length window ≡ limit)
            × (push_record limit window r ≡ ws ++ (r ∷ [])))
  unfolding push_record
  push_record-cases limit window r pos h =
      let positive : ltb 0 limit ≡ true = ground (arith, pos) in
      elim (Bool-cases (length window == limit)) [
        | inr room ↦ inl (rw (positive, room, push_record) refl, ground (arith, room, h))
        | inl full ↦
            split window pos (eq_of_test (length window) limit full)
              (rw (positive, full, push_record) refl)
      ]
    where
      split :
          (v : List A)
          → 0 < limit
          → length v ≡ limit
          → push_record limit v r ≡ pop_front v ++ (r ∷ [])
          → ((push_record limit v r ≡ v ++ (r ∷ [])) × (length v < limit))
            ⊎ ((w : A) × (ws : List A) × (v ≡ w ∷ ws)
                × (length v ≡ limit)
                × (push_record limit v r ≡ ws ++ (r ∷ [])))
      split [] above full e = inl (e, omega (arith, above))
      split (w ∷ ws) above full e = inr (w, ws, refl, full, e)

  push_record-length :
      (limit : ℕ) (window : List A) (r : A)
      → 0 < limit
      → length window ≤ limit
      → length (push_record limit window r) ≤ limit
  push_record-length limit window r pos h = elim (push_record-cases limit window r pos h) [
    | inl (e, room) ↦ rw e (omega (arith, length-append window (r ∷ []), room))
    | inr (w, ws, v, full, e) ↦ rw e (omega (arith, length-append ws (r ∷ []), full, ap length v))
  ]

  push_record-last_n :
      (limit : ℕ) (window : List A) (r : A) (rest : List A)
      → 0 < limit
      → length window ≤ limit
      → last_n limit (push_record limit window r ++ rest) ≡ last_n limit (window ++ (r ∷ rest))
  push_record-last_n limit window r rest pos h = elim (push_record-cases limit window r pos h) [
    | inl (e, room) ↦ rw e (ap (last_n limit) (append_assoc window (r ∷ []) rest))
    | inr (w, ws, v, full, e) ↦
        ap (λ l. last_n limit (l ++ rest)) e
        ∙ ap (last_n limit) (append_assoc ws (r ∷ []) rest)
        ∙ sym (
            last_n-cons limit w (ws ++ (r ∷ rest))
              (omega (arith, length-append ws (r ∷ rest), full, ap length v)))
        ∙ ap (λ l. last_n limit (l ++ (r ∷ rest))) (sym v)
  ]

  -- Only the limited part of the records counts.
  abbrev pub expected : (Text → Option A) → ℕ → RunHistory A → List Text → RunHistory A
  expected parse limit h lines = record {
    records = last_n limit (h.records ++ parsed parse lines);
    skipped_lines = h.skipped_lines + unparsed parse lines;
  }

  Steps : (Text → Option A) → ℕ → RunHistory A → Text → List Text → Type ℓ
  Steps parse limit h line lines =
      (expected parse limit (read_line parse limit h line) lines
        ≡ expected parse limit h (line ∷ lines))
      × (length (read_line parse limit h line).records ≤ limit)

  read_line-Steps :
      (parse : Text → Option A) (limit : ℕ) (h : RunHistory A) (line : Text) (lines : List Text)
      → 0 < limit
      → length h.records ≤ limit
      → Steps parse limit h line lines
  unfolding read_line Steps
  read_line-Steps parse limit h line lines pos fits = elim (Bool-cases (is_empty (trim line))) [
    | inl blank ↦ (rw (blank, read_line) refl, rw (blank, read_line) fits)
    | inr text ↦ elim (Option-cases (parse (trim line))) [
      | inl bad ↦
          let count : suc h.skipped_lines + unparsed parse lines
              ≡ h.skipped_lines + suc (unparsed parse lines) =
            omega arith in
          (
            rw (text, bad, read_line)
                (λ i. record {
                  records = last_n limit (h.records ++ parsed parse lines);
                  skipped_lines = count i;
                }),
            rw (text, bad, read_line) fits,
          )
      | inr (r, good) ↦ (
        rw (text, good, read_line)
            (λ i. record {
              records = push_record-last_n limit h.records r (parsed parse lines) pos fits i;
              skipped_lines = h.skipped_lines + unparsed parse lines;
            }),
        rw (text, good, read_line) (push_record-length limit h.records r pos fits),
      )
    ]
  ]

  read_lines_lem :
      (parse : Text → Option A) (limit : ℕ) (h : RunHistory A) (lines : List Text)
      → 0 < limit
      → length h.records ≤ limit
      → read_lines parse limit h (map ok lines) ≡ ok (expected parse limit h lines)
  unfolding read_lines Steps
  read_lines_lem parse limit h [] pos fits =
      let all = sym (ap (last_n limit) (append-nil h.records) ∙ last_n_all limit h.records fits) in
      let count : h.skipped_lines ≡ h.skipped_lines + 0 = omega arith in
      λ i. ok (record { records = all i; skipped_lines = count i })
  read_lines_lem parse limit h (line ∷ lines) pos fits =
      let (same, fits_still) = read_line-Steps parse limit h line lines pos fits in
      read_lines_lem parse limit (read_line parse limit h line) lines pos fits_still ∙ ap ok same

  read_lines-err :
      (parse : Text → Option A) (limit : ℕ) (h : RunHistory A) (lines : List Text) (e : IngestError)
      (rest : List (Result IngestError Text))
      → read_lines parse limit h (map ok lines ++ (err e ∷ rest)) ≡ err e
  unfolding read_lines
  read_lines-err parse limit h [] e rest = refl
  read_lines-err parse limit h (line ∷ lines) e rest =
      read_lines-err parse limit (read_line parse limit h line) lines e rest

  -- With a limit, the history that is read from lines is the last records of those that parse, at
  -- most as many as the limit, in order, and it says how many lines that are not blank did not
  -- parse. If the reader fails behind some lines, its error is the answer.
  pub read_from_lem :
      (parse : Text → Option A) (limit : ℕ) (lines : List Text) (e : IngestError)
      (rest : List (Result IngestError Text))
      → 0 < limit
      → ((history : RunHistory A) × (read_from parse limit (map ok lines) ≡ ok history)
          × (history.records ≡ last_n limit (parsed parse lines))
          × (history.skipped_lines ≡ unparsed parse lines))
        × (read_from parse limit (map ok lines ++ (err e ∷ rest)) ≡ err e)
  unfolding read_from
  read_from_lem parse limit lines e rest pos =
      let all =
        read_lines_lem parse limit (record { records = []; skipped_lines = 0 }) lines pos
          (omega (arith, pos)) in
      (
        (
          expected parse limit (record { records = []; skipped_lines = 0 }) lines,
          all,
          refl,
          omega arith,
        ),
        read_lines-err parse limit (record { records = []; skipped_lines = 0 }) lines e rest,
      )
