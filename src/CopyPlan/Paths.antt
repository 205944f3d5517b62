-- ===== src/CopyPlan/Paths.antt =====
-- The parts of a path, of its name, and of a name joined to it.
use Prim.Native.Char.{Char, code}
use rustcopy.Base.{
  ℕ, zero, suc, ◌≡◌, refl, ◌∙◌, sym, ap, String, Bool, true, false, ◌||◌, List, [], ◌∷◌, ◌++◌,
  keep_if, All, nat_eq, string_eq, list_eq, if◌then◌else◌, Bool-cases, inl, inr, append-nil,
}
use rustcopy.Strings.{is_empty_string, is_separator}
use rustcopy.CopyPlan.{
  lead, split_path, trim_end_separators, last_part, folder_name, is_part, is_nil, behind,
  ends_in_separator, join, has_drive, is_bare_drive,
}

lead-append :
    (c : Char) (parts more : List String)
    → is_nil parts ≡ false
    → lead c (parts ++ more) ≡ lead c parts ++ more
lead-append c [] more h = cc h
lead-append c (part ∷ parts) more h = refl

lead-not-nil : (c : Char) (parts : List String) → is_nil (lead c parts) ≡ false
lead-not-nil c [] = refl
lead-not-nil c (part ∷ parts) = refl

split_path-not-nil : (s : String) → is_nil (split_path s) ≡ false
unfolding split_path
split_path-not-nil String.[] = refl
split_path-not-nil (String.◌∷◌ c s) = elim (Bool-cases (is_separator (code c))) [
  | inl sep ↦ rw sep refl
  | inr plain ↦ rw plain (lead-not-nil c (split_path s))
]

abbrev empties : ℕ → List String
empties zero = []
empties (suc n) = String.[] ∷ empties n

split_path-empty : (s : String) → is_empty_string s ≡ true → split_path s ≡ String.[] ∷ []
unfolding split_path
split_path-empty String.[] h = refl
split_path-empty (String.◌∷◌ c s) h = cc h

-- Separators at the end add empty parts only.
split_path-trimmed :
    (s : String) → (n : ℕ) × (split_path s ≡ split_path (trim_end_separators s) ++ empties n)
unfolding split_path trim_end_separators
split_path-trimmed String.[] = (0, refl)
split_path-trimmed (String.◌∷◌ c s) =
    let (n, same) = split_path-trimmed s in
    elim (Bool-cases (is_separator (code c))) [
      | inr plain ↦ (
        n,
        rw plain (
            rw plain (
              ap (lead c) same
              ∙ lead-append c (split_path (trim_end_separators s)) (empties n)
                  (split_path-not-nil (trim_end_separators s)))),
      )
      | inl sep ↦ elim (Bool-cases (is_empty_string (trim_end_separators s))) [
        | inl nothing ↦ (
          suc n,
          rw (sep, nothing)
              (ap (λ l. String.[] ∷ l)
                (same
                  ∙ ap (λ l. l ++ empties n) (split_path-empty (trim_end_separators s) nothing))),
        )
        | inr something ↦ (n, rw (sep, something) (rw sep (ap (λ l. String.[] ∷ l) same)))
      ]
    ]

keep_if-append :
    (p : String → Bool) (xs ys : List String) → keep_if p (xs ++ ys) ≡ keep_if p xs ++ keep_if p ys
keep_if-append p [] ys = refl
keep_if-append p (x ∷ xs) ys = elim (Bool-cases (p x)) [
  | inl e ↦ rw e (ap (λ l. x ∷ l) (keep_if-append p xs ys))
  | inr e ↦ rw e (keep_if-append p xs ys)
]

keep_if-empties : (n : ℕ) → keep_if is_part (empties n) ≡ []
keep_if-empties zero = refl
keep_if-empties (suc n) = keep_if-empties n

split_path-separator :
    (root name : String) (c : Char)
    → is_separator (code c) ≡ true
    → split_path (behind (String.◌∷◌ c name) root) ≡ split_path root ++ split_path name
unfolding split_path behind
split_path-separator String.[] name c sep = rw sep refl
split_path-separator (String.◌∷◌ d root) name c sep = elim (Bool-cases (is_separator (code d))) [
  | inl e ↦ rw e (ap (λ l. String.[] ∷ l) (split_path-separator root name c sep))
  | inr e ↦ rw e (
      ap (lead d) (split_path-separator root name c sep)
      ∙ lead-append d (split_path root) (split_path name) (split_path-not-nil root))
]

-- A path with a separator at its end, and a name behind it.
split_path-ended :
    (root name : String)
    → ends_in_separator root ≡ true
    → (before : List String) × (is_nil before ≡ false)
      × (split_path root ≡ before ++ (String.[] ∷ []))
      × (split_path (behind name root) ≡ before ++ split_path name)
unfolding split_path behind ends_in_separator
split_path-ended String.[] name h = cc h
split_path-ended (String.◌∷◌ c String.[]) name h = (String.[] ∷ [], refl, rw h refl, rw h refl)
split_path-ended (String.◌∷◌ c (String.◌∷◌ d root)) name h =
    let (before, filled, root_split, joined) = split_path-ended (String.◌∷◌ d root) name h in
    elim (Bool-cases (is_separator (code c))) [
      | inl e ↦ (
        String.[] ∷ before,
        refl,
        rw e (ap (λ l. String.[] ∷ l) root_split),
        rw e (ap (λ l. String.[] ∷ l) joined),
      )
      | inr e ↦ (
        lead c before,
        lead-not-nil c before,
        rw e (ap (lead c) root_split ∙ lead-append c before (String.[] ∷ []) filled),
        rw e (ap (lead c) joined ∙ lead-append c before (split_path name) filled),
      )
    ]

lead-Alone :
    (c : Char) (parts : List String)
    → is_separator (code c) ≡ false
    → All (λ part. split_path part ≡ part ∷ []) parts
    → All (λ part. split_path part ≡ part ∷ []) (lead c parts)
unfolding split_path
lead-Alone c [] plain h = (rw plain refl, tt)
lead-Alone c (part ∷ parts) plain (h, hs) = (rw plain (ap (lead c) h), hs)

-- No part has a separator.
split_path-Alone : (s : String) → All (λ part. split_path part ≡ part ∷ []) (split_path s)
unfolding split_path
split_path-Alone String.[] = (refl, tt)
split_path-Alone (String.◌∷◌ c s) = elim (Bool-cases (is_separator (code c))) [
  | inl e ↦ rw e (refl, split_path-Alone s)
  | inr e ↦ rw e (lead-Alone c (split_path s) e (split_path-Alone s))
]

All-last_part {κ} :
    (P : String → Type κ) (parts : List String)
    → is_nil parts ≡ false
    → All P parts
    → P (last_part parts)
All-last_part P [] h all = cc h
All-last_part P (part ∷ []) h all = all.0
All-last_part P (part ∷ next ∷ parts) h all = All-last_part P (next ∷ parts) refl all.1

keep_if-last_part :
    (p : String → Bool) (parts : List String)
    → is_nil parts ≡ false
    → p (last_part parts) ≡ true
    → (before : List String) × (keep_if p parts ≡ before ++ (last_part parts ∷ []))
keep_if-last_part p [] h k = cc h
keep_if-last_part p (part ∷ []) h k = ([], rw k refl)
keep_if-last_part p (part ∷ next ∷ parts) h k =
    let (before, same) = keep_if-last_part p (next ∷ parts) refl k in
    elim (Bool-cases (p part)) [
      | inl e ↦ (part ∷ before, rw e (ap (λ l. part ∷ l) same))
      | inr e ↦ (before, rw e same)
    ]

abbrev pub real_parts : String → List String
real_parts path = keep_if is_part (split_path path)

-- The parts of a folder's path end with its name.
pub real_parts-folder_name :
    (source : String)
    → is_part (folder_name source) ≡ true
    → (before : List String) × (real_parts source ≡ before ++ (folder_name source ∷ []))
unfolding folder_name
real_parts-folder_name source h =
    let (n, same) = split_path-trimmed source in
    let parts = split_path (trim_end_separators source) in
    let (before, kept) =
      keep_if-last_part is_part parts (split_path-not-nil (trim_end_separators source)) h in
    (
      before,
      ap (keep_if is_part) same
          ∙ keep_if-append is_part parts (empties n)
          ∙ ap (λ l. keep_if is_part parts ++ l) (keep_if-empties n)
          ∙ append-nil _
          ∙ kept,
    )

joined :
    (root name : String)
    → is_bare_drive root ≡ false
    → real_parts name ≡ name ∷ []
    → real_parts (
        if is_empty_string root || is_bare_drive root || ends_in_separator root
        then behind name root
        else behind (String.◌∷◌ "\\" name) root)
      ≡ real_parts root ++ (name ∷ [])
unfolding nat_eq
joined String.[] name bare kept = unfold split_path behind in kept
joined (String.◌∷◌ c s) name bare kept = elim (Bool-cases (ends_in_separator (String.◌∷◌ c s))) [
  | inl ended ↦
      let (before, _, root_split, behind_split) = split_path-ended (String.◌∷◌ c s) name ended in
      rw (bare, ended)
        (ap (keep_if is_part) behind_split
          ∙ keep_if-append is_part before (split_path name)
          ∙ ap (λ l. keep_if is_part before ++ l) kept
          ∙ sym (
              ap (λ l. l ++ (name ∷ []))
                (ap (keep_if is_part) root_split
                  ∙ keep_if-append is_part before (String.[] ∷ [])
                  ∙ append-nil _)))
  | inr unended ↦
      rw (bare, unended)
        (ap (keep_if is_part) (split_path-separator (String.◌∷◌ c s) name "\\" refl)
          ∙ keep_if-append is_part (split_path (String.◌∷◌ c s)) (split_path name)
          ∙ ap (λ l. real_parts (String.◌∷◌ c s) ++ l) kept)
]

-- A name joined to a path adds one part to it. (The name starts with no drive, the path is no bare
-- drive.)
pub real_parts-join :
    (root source : String)
    → is_part (folder_name source) ≡ true
    → has_drive (folder_name source) ≡ false
    → is_bare_drive root ≡ false
    → real_parts (join root (folder_name source)) ≡ real_parts root ++ (folder_name source ∷ [])
unfolding folder_name join
real_parts-join root source h driven bare =
    let parts = split_path (trim_end_separators source) in
    let name = last_part parts in
    let alone : split_path name ≡ name ∷ [] =
      All-last_part (λ part. split_path part ≡ part ∷ []) parts
        (split_path-not-nil (trim_end_separators source))
        (split_path-Alone (trim_end_separators source)) in
    rw driven (joined root name bare (ap (keep_if is_part) alone ∙ rw h refl))
