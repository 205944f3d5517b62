-- ===== src/Schedule/Quoting.antt =====
-- The quoted command line is taken apart into the arguments that it was built from.
use rustcopy.Base.{
  ℕ, zero, suc, ◌≡◌, ◌∙◌, refl, sym, ap, ◌⊎◌, inl, inr, Bool, true, false, not, ◌&&◌, ◌||◌, List,
  [], ◌∷◌, ◌++◌, map, All, append_assoc, append-nil, Bool-cases, eq_of_test, arith, ◌==◌, nat_eq,
  if◌then◌else◌,
}
use rustcopy.Text.{Text, is_whitespace, is_empty}
use rustcopy.Schedule.{
  quote, backslash, space, any_whitespace, escaped, quote_if_needed, join_spaces,
  build_task_arguments,
}
use rustcopy.Schedule.Split.{Reading, nothing_read, repeated, at_quote, is_blank, split_from}

abbrev pub NoQuote : Text → Type 0
NoQuote t = All (λ c. (c == quote) ≡ false) t

abbrev pub ends_in_backslash : Text → Bool
ends_in_backslash [] = false
ends_in_backslash (c ∷ []) = c == backslash
ends_in_backslash (_ ∷ d ∷ t) = ends_in_backslash (d ∷ t)

-- No quote in it, and no backslash at its end.
abbrev pub Quotable : Text → Type 0
Quotable s = NoQuote s × (ends_in_backslash s ≡ false)

abbrev pub reading : Bool → Text → ℕ → Reading
reading quoted current slashes = record {
  begun = true;
  quoted = quoted;
  current = current;
  slashes = slashes;
}

-- What is read of a text without quotes, and the backslashes at its end.
abbrev pub read_on : Text → ℕ → Text → Text × ℕ
read_on current n [] = (current, n)
read_on current n (c ∷ t) =
    let after_slash = read_on current (suc n) t in
    let after_other = read_on (current ++ (repeated n ++ (c ∷ []))) 0 t in
    if c == backslash then after_slash else after_other

abbrev pub flushed : Text × ℕ → Text
flushed (current, n) = current ++ repeated n

repeated_snoc : (n : ℕ) → backslash ∷ repeated n ≡ repeated n ++ (backslash ∷ [])
repeated_snoc zero = refl
repeated_snoc (suc n) = ap (λ l. backslash ∷ l) (repeated_snoc n)

glue : (a b : Text) (x : ℕ) (t : Text) → (a ++ (b ++ (x ∷ []))) ++ t ≡ (a ++ b) ++ (x ∷ t)
glue a b x t = ap (λ l. l ++ t) (sym (append_assoc a b (x ∷ []))) ∙ append_assoc (a ++ b) (x ∷ []) t

pub flushed-read_on :
    (current : Text) (n : ℕ) (t : Text)
    → flushed (read_on current n t) ≡ (current ++ repeated n) ++ t
flushed-read_on current n [] = sym (append-nil (current ++ repeated n))
flushed-read_on current n (c ∷ t) = elim (Bool-cases (c == backslash)) [
  | inl e ↦ rw e (
      flushed-read_on current (suc n) t
      ∙ ap (λ l. (current ++ l) ++ t) (repeated_snoc n)
      ∙ glue current (repeated n) backslash t
      ∙ ap (λ x. (current ++ repeated n) ++ (x ∷ t)) (sym (eq_of_test c backslash e)))
  | inr e ↦ rw e (
      flushed-read_on (current ++ (repeated n ++ (c ∷ []))) 0 t
      ∙ ap (λ l. l ++ t) (append-nil (current ++ (repeated n ++ (c ∷ []))))
      ∙ glue current (repeated n) c t)
]

read_on-settled :
    (current : Text) (n : ℕ) (c : ℕ) (t : Text)
    → ends_in_backslash (c ∷ t) ≡ false
    → (read_on current n (c ∷ t)).1 ≡ 0
read_on-settled current n c [] h = rw h refl
read_on-settled current n c (d ∷ t) h = elim (Bool-cases (c == backslash)) [
  | inl e ↦ rw e (read_on-settled current (suc n) d t h)
  | inr e ↦ rw e (read_on-settled (current ++ (repeated n ++ (c ∷ []))) 0 d t h)
]

not_blank : (c : ℕ) → is_whitespace c ≡ false → is_blank c ≡ false
not_blank c h = ground (arith, h)

stays :
    (quoted : Bool) (c : ℕ) (t : Text)
    → (quoted ≡ true) ⊎ (any_whitespace (c ∷ t) ≡ false)
    → (is_blank c && not quoted) ≡ false
stays quoted c t (inl q) = ground (arith, q)
stays quoted c t (inr w) = ground (arith, not_blank c (ground (arith, w)))

later :
    (quoted : Bool) (c : ℕ) (t : Text)
    → (quoted ≡ true) ⊎ (any_whitespace (c ∷ t) ≡ false)
    → (quoted ≡ true) ⊎ (any_whitespace t ≡ false)
later quoted c t (inl q) = inl q
later quoted c t (inr w) = inr (ground (arith, w))

pub split_from-read_on :
    (quoted : Bool) (current : Text) (n : ℕ) (t rest : Text)
    → NoQuote t
    → (quoted ≡ true) ⊎ (any_whitespace t ≡ false)
    → split_from (reading quoted current n) (t ++ rest)
      ≡ split_from (reading quoted (read_on current n t).0 (read_on current n t).1) rest
unfolding split_from
split_from-read_on quoted current n [] rest h k = refl
split_from-read_on quoted current n (c ∷ t) rest (a, h) k = elim (Bool-cases (c == backslash)) [
  | inl e ↦
      rw (e, split_from) (split_from-read_on quoted current (suc n) t rest h (later quoted c t k))
  | inr e ↦
      rw (e, a, stays quoted c t k, split_from)
        (split_from-read_on quoted (current ++ (repeated n ++ (c ∷ []))) 0 t rest h
          (later quoted c t k))
]

-- A reading that has not begun begins with the first character that is no blank.
begins :
    (c : ℕ) (t : Text)
    → (c == quote) ≡ false
    → is_whitespace c ≡ false
    → split_from nothing_read (c ∷ t) ≡ split_from (reading false [] 0) (c ∷ t)
unfolding split_from
begins c t a b = elim (Bool-cases (c == backslash)) [
  | inl e ↦ rw (e, split_from) refl
  | inr e ↦ rw (e, a, not_blank c b, split_from) refl
]

-- What stands behind an argument: nothing, or a space and the next ones.
abbrev tail_of : List Text → Text
tail_of [] = []
tail_of (part ∷ parts) = space ∷ join_spaces (part ∷ parts)

join_spaces-tail_of :
    (part : Text) (parts : List Text) → join_spaces (part ∷ parts) ≡ part ++ tail_of parts
join_spaces-tail_of part [] = sym (append-nil part)
join_spaces-tail_of part (next ∷ parts) = refl

split_from-tail_of :
    (current : Text) (n : ℕ) (parts : List Text)
    → split_from (reading false current n) (tail_of parts)
      ≡ flushed (current, n) ∷ split_from nothing_read (join_spaces parts)
unfolding split_from nat_eq
split_from-tail_of current n [] = refl
split_from-tail_of current n (part ∷ parts) = refl

pub escaped-NoQuote : (t : Text) → NoQuote t → escaped t ≡ t
unfolding escaped
escaped-NoQuote [] h = refl
escaped-NoQuote (c ∷ t) (a, h) = rw a (ap (λ l. c ∷ l) (escaped-NoQuote t h))

pub opening : (t : Text) → split_from nothing_read (quote ∷ t) ≡ split_from (reading true [] 0) t
unfolding split_from at_quote nat_eq
opening t = refl

closing :
    (current t : Text)
    → split_from (reading true current 0) (quote ∷ t)
      ≡ split_from (reading false (current ++ []) 0) t
unfolding split_from at_quote nat_eq
closing current t = refl

pub no_slashes : (s : Text) → ends_in_backslash s ≡ false → (read_on [] 0 s).1 ≡ 0
no_slashes [] h = refl
no_slashes (c ∷ s) h = read_on-settled [] 0 c s h

split_quoted :
    (s : Text) (parts : List Text)
    → Quotable s
    → split_from nothing_read (quote ∷ ((s ++ (quote ∷ [])) ++ tail_of parts))
      ≡ s ∷ split_from nothing_read (join_spaces parts)
split_quoted s parts (plain, settled) =
    let inside = read_on [] 0 s in
    opening ((s ++ (quote ∷ [])) ++ tail_of parts)
    ∙ ap (split_from (reading true [] 0)) (append_assoc s (quote ∷ []) (tail_of parts))
    ∙ split_from-read_on true [] 0 s (quote ∷ tail_of parts) plain (inl refl)
    ∙ ap (λ n. split_from (reading true inside.0 n) (quote ∷ tail_of parts)) (no_slashes s settled)
    ∙ closing inside.0 (tail_of parts)
    ∙ split_from-tail_of (inside.0 ++ []) 0 parts
    ∙ ap (λ l. l ∷ split_from nothing_read (join_spaces parts))
        (ap (λ l. l ++ [])
            (ap (λ n. inside.0 ++ repeated n) (sym (no_slashes s settled)) ∙ flushed-read_on [] 0 s)
          ∙ append-nil s)

split_bare :
    (s : Text) (parts : List Text)
    → NoQuote s
    → is_empty s ≡ false
    → any_whitespace s ≡ false
    → split_from nothing_read (s ++ tail_of parts) ≡ s ∷ split_from nothing_read (join_spaces parts)
split_bare [] parts h e w = cc
split_bare (c ∷ s) parts (a, h) e w =
    begins c (s ++ tail_of parts) a (ground (arith, w))
    ∙ split_from-read_on false [] 0 (c ∷ s) (tail_of parts) (a, h) (inr w)
    ∙ split_from-tail_of (read_on [] 0 (c ∷ s)).0 (read_on [] 0 (c ∷ s)).1 parts
    ∙ ap (λ l. l ∷ split_from nothing_read (join_spaces parts)) (flushed-read_on [] 0 (c ∷ s))

split_one :
    (s : Text) (parts : List Text)
    → Quotable s
    → split_from nothing_read (join_spaces (quote_if_needed s ∷ parts))
      ≡ s ∷ split_from nothing_read (join_spaces parts)
unfolding quote_if_needed
split_one s parts (plain, settled) =
    ap (split_from nothing_read) (join_spaces-tail_of (quote_if_needed s) parts)
    ∙ (elim (Bool-cases (is_empty s || any_whitespace s)) [
      | inl needed ↦ rw (needed, escaped-NoQuote s plain) (split_quoted s parts (plain, settled))
      | inr bare ↦ rw bare (split_bare s parts plain (ground (arith, bare)) (ground (arith, bare)))
    ])

-- The arguments of a scheduled run that are put together into one command line come out of it
-- again, each as it was, when Windows takes the line apart: for arguments that hold no quote and do
-- not end in a backslash.
pub split-build_task_arguments :
    (args : List Text)
    → All Quotable args
    → split_from nothing_read (build_task_arguments args) ≡ args
unfolding build_task_arguments
split-build_task_arguments [] h = unfold split_from in refl
split-build_task_arguments (s ∷ args) (h, hs) =
    split_one s (map quote_if_needed args) h ∙ ap (λ l. s ∷ l) (split-build_task_arguments args hs)
