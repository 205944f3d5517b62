-- ===== src/Schedule/Merging.antt =====
-- What becomes of a quoted argument that ends in a backslash.
use rustcopy.Base.{
  ℕ, ◌≡◌, ◌∙◌, refl, sym, ap, inl, inr, Bool, true, false, ◌||◌, [], ◌∷◌, ◌++◌, append_assoc,
  append-nil, Bool-cases, arith, nat_eq,
}
use rustcopy.Text.{Text, is_whitespace, is_empty}
use rustcopy.Schedule.{
  quote, backslash, space, any_whitespace, quote_if_needed, build_task_arguments,
}
use rustcopy.Schedule.Split.{nothing_read, repeated, at_quote, split_from}
use rustcopy.Schedule.Quoting.{
  NoQuote, Quotable, reading, read_on, flushed, opening, split_from-read_on, no_slashes,
  flushed-read_on, escaped-NoQuote,
}

any_whitespace-append : (t u : Text) → any_whitespace t ≡ true → any_whitespace (t ++ u) ≡ true
any_whitespace-append [] u h = cc
any_whitespace-append (c ∷ t) u h = elim (Bool-cases (is_whitespace c)) [
  | inl e ↦ ground (arith, e)
  | inr e ↦ ground (arith, e, any_whitespace-append t u (ground (arith, h, e)))
]

NoQuote-append : (t u : Text) → NoQuote t → NoQuote u → NoQuote (t ++ u)
NoQuote-append [] u h k = k
NoQuote-append (c ∷ t) u (a, h) k = (a, NoQuote-append t u h k)

escaping_quote :
    (current t : Text)
    → split_from (reading true current 0) (backslash ∷ quote ∷ t)
      ≡ split_from (reading true (current ++ (quote ∷ [])) 0) t
unfolding split_from at_quote nat_eq
escaping_quote current t = refl

at_end :
    (quoted : Bool) (current : Text) (n : ℕ)
    → split_from (reading quoted current n) [] ≡ flushed (current, n) ∷ []
unfolding split_from
at_end quoted current n = refl

backslash-NoQuote : NoQuote (backslash ∷ [])
unfolding nat_eq
backslash-NoQuote = (refl, tt)

space-NoQuote : (next : Text) → NoQuote next → NoQuote (space ∷ next)
unfolding nat_eq
space-NoQuote next h = (refl, h)

quoted_form :
    (s : Text)
    → NoQuote s
    → any_whitespace s ≡ true
    → quote_if_needed s ≡ quote ∷ (s ++ (quote ∷ []))
unfolding quote_if_needed
quoted_form s plain blank =
    let needed : (is_empty s || any_whitespace s) ≡ true = ground (arith, blank) in
    rw (needed, escaped-NoQuote s plain) refl

bare_form : (s : Text) → is_empty s ≡ false → any_whitespace s ≡ false → quote_if_needed s ≡ s
unfolding quote_if_needed
bare_form s full bare =
    let needless : (is_empty s || any_whitespace s) ≡ false = ground (arith, full, bare) in
    rw needless refl

line_of_two :
    (u next : Text)
    → NoQuote u
    → any_whitespace u ≡ true
    → is_empty next ≡ false
    → any_whitespace next ≡ false
    → build_task_arguments ((u ++ (backslash ∷ [])) ∷ next ∷ [])
      ≡ quote ∷ (u ++ (backslash ∷ quote ∷ space ∷ next))
unfolding build_task_arguments
line_of_two u next plain blank full bare =
    let s = u ++ (backslash ∷ []) in
    ap (λ l. l ++ (space ∷ quote_if_needed next))
      (quoted_form s (NoQuote-append u (backslash ∷ []) plain backslash-NoQuote)
        (any_whitespace-append u (backslash ∷ []) blank))
    ∙ ap (λ l. quote ∷ ((s ++ (quote ∷ [])) ++ (space ∷ l))) (bare_form next full bare)
    ∙ ap (λ l. quote ∷ l)
        (append_assoc s (quote ∷ []) (space ∷ next)
          ∙ append_assoc u (backslash ∷ []) (quote ∷ space ∷ next))

-- An argument that holds a blank and ends in a backslash, such as the path of a folder, is merged
-- with the one behind it: Windows takes the line of the two apart into one argument, with a quote
-- for the backslash. (The text before the backslash holds no quote and does not end in a backslash
-- itself; the argument behind it has no quote and no blank and is not empty.)
pub build_task_arguments-merges :
    (u next : Text)
    → Quotable u
    → any_whitespace u ≡ true
    → NoQuote next
    → is_empty next ≡ false
    → any_whitespace next ≡ false
    → split_from nothing_read (build_task_arguments ((u ++ (backslash ∷ [])) ∷ next ∷ []))
      ≡ (u ++ (quote ∷ space ∷ next)) ∷ []
build_task_arguments-merges u next (plain, settled) blank next_plain full bare =
    let inside = read_on [] 0 u in
    let all_of_u : inside.0 ≡ u =
      sym (append-nil inside.0)
      ∙ ap (λ n. inside.0 ++ repeated n) (sym (no_slashes u settled))
      ∙ flushed-read_on [] 0 u in
    ap (split_from nothing_read) (line_of_two u next plain blank full bare)
    ∙ opening (u ++ (backslash ∷ quote ∷ space ∷ next))
    ∙ split_from-read_on true [] 0 u (backslash ∷ quote ∷ space ∷ next) plain (inl refl)
    ∙ ap (λ n. split_from (reading true inside.0 n) (backslash ∷ quote ∷ space ∷ next))
        (no_slashes u settled)
    ∙ escaping_quote inside.0 (space ∷ next)
    ∙ ap (split_from (reading true (inside.0 ++ (quote ∷ [])) 0)) (sym (append-nil (space ∷ next)))
    ∙ split_from-read_on true (inside.0 ++ (quote ∷ [])) 0 (space ∷ next) []
        (space-NoQuote next next_plain) (inl refl)
    ∙ at_end true _ _
    ∙ ap (λ l. l ∷ [])
        (flushed-read_on (inside.0 ++ (quote ∷ [])) 0 (space ∷ next)
          ∙ ap (λ l. l ++ (space ∷ next)) (append-nil (inside.0 ++ (quote ∷ [])))
          ∙ append_assoc inside.0 (quote ∷ []) (space ∷ next)
          ∙ ap (λ l. l ++ (quote ∷ space ∷ next)) all_of_u)
