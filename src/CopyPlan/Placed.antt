-- ===== src/CopyPlan/Placed.antt =====
-- What the loops of `plan_copy` leave of each pair.
use rustcopy.Base.{
  ◌≡◌, refl, ◌∙◌, sym, ap, String, true, false, ◌||◌, List, [], ◌∷◌, ◌++◌, map, All, ◌==◌, nat_eq,
  string_eq, list_eq, contains, arith, subst, ok, >>=-ok,
}
use rustcopy.Strings.{is_empty_string}
use rustcopy.JobEditor.{refuse_if}
use rustcopy.CopyPlan.{
  folder_name, is_part, join, has_drive, is_bare_drive, path_parts, is_same_or_inside, check_source,
  plan_sources, check_planned,
}
use rustcopy.CopyPlan.Paths.{real_parts, real_parts-folder_name, real_parts-join}

map-append : (f : String → String) (xs ys : List String) → map f (xs ++ ys) ≡ map f xs ++ map f ys
map-append f [] ys = refl
map-append f (x ∷ xs) ys = ap (λ l. f x ∷ l) (map-append f xs ys)

-- A folder whose path ends with its name, not with a dot, and whose name starts with no drive.
abbrev pub Named : String → Type 0
Named source = ((folder_name source == ".") ≡ false) × (has_drive (folder_name source) ≡ false)

module _ (to_lowercase : String → String) where
  -- What the plan says of one pair.
  pub record Placed (root : String) (pair : String × String) : Type 0 where
    pub placed : pair.1 ≡ join root (folder_name pair.0)
    pub is_named : is_part (folder_name pair.0) ≡ true
    pub undriven : has_drive (folder_name pair.0) ≡ false
    pub outside : is_same_or_inside to_lowercase root pair.0 ≡ false

  abbrev pub key : String × String → String
  key pair = to_lowercase (folder_name pair.0)

  -- No two pairs have one name.
  abbrev pub Apart : List (String × String) → Type 0
  Apart [] = Unit
  Apart (pair ∷ pairs) = All (λ q. (key q == key pair) ≡ false) pairs × Apart pairs

  check_source_lem :
      (root : String) (names : List String) (source : String)
      → check_source to_lowercase root names source ≡ ok tt
      → (is_empty_string (folder_name source) ≡ false)
        × (is_same_or_inside to_lowercase root source ≡ false)
        × (contains names (to_lowercase (folder_name source)) ≡ false)
  unfolding check_source
  check_source_lem root names source h = (ground (arith, h), ground (arith, h), ground (arith, h))

  contains-snoc :
      (names : List String) (name x : String)
      → contains (names ++ (name ∷ [])) x ≡ (contains names x || (x == name))
  contains-snoc [] name x = ground arith
  contains-snoc (n ∷ names) name x = ground (arith, contains-snoc names name x)

  fresh_names :
      (names : List String) (name : String) (pairs : List (String × String))
      → All (λ q. contains (names ++ (name ∷ [])) (key q) ≡ false) pairs
      → All (λ q. contains names (key q) ≡ false) pairs × All (λ q. (key q == name) ≡ false) pairs
  fresh_names names name [] h = (tt, tt)
  fresh_names names name (q ∷ pairs) (h, hs) =
      let rest = fresh_names names name pairs hs in
      let split = sym (contains-snoc names name (key q)) ∙ h in
      ((ground (arith, split), rest.0), (ground (arith, split), rest.1))

  pub plan_sources_lem :
      (root : String) (names sources : List String) (planned : List (String × String))
      → plan_sources to_lowercase root names sources ≡ ok planned
      → All Named sources
      → (map (λ pair. pair.0) planned ≡ sources)
        × All (Placed root) planned
        × All (λ q. contains names (key q) ≡ false) planned
        × Apart planned
  unfolding plan_sources
  plan_sources_lem root names [] planned h named =
      let same : [] ≡ planned = cc h in
      subst
        (λ ps.
          (map (λ pair. pair.0) ps ≡ [])
          × All (Placed root) ps
          × All (λ q. contains names (key q) ≡ false) ps
          × Apart ps)
        same (refl, tt, tt, tt)
  plan_sources_lem root names (source ∷ sources) planned h (named, rest_named) =
      let (_, checked, h₁) = >>=-ok (check_source to_lowercase root names source) _ h in
      let (rest, went, made) =
        >>=-ok
          (plan_sources to_lowercase root (names ++ (to_lowercase (folder_name source) ∷ []))
            sources)
          _ h₁ in
      let (filled, outside, fresh) = check_source_lem root names source checked in
      let (froms, placed, unused, apart) =
        plan_sources_lem root (names ++ (to_lowercase (folder_name source) ∷ [])) sources rest went
          rest_named in
      let (unused_before, different) = fresh_names names _ rest unused in
      let same : ((source, join root (folder_name source)) ∷ rest) ≡ planned = cc made in
      subst
        (λ ps.
          (map (λ pair. pair.0) ps ≡ source ∷ sources)
          × All (Placed root) ps
          × All (λ q. contains names (key q) ≡ false) ps
          × Apart ps)
        same
        (
          ap (λ l. source ∷ l) froms,
          (
            record {
              placed = refl;
              is_named = ground (arith, filled, named.0);
              undriven = named.1;
              outside = outside;
            },
            placed,
          ),
          (fresh, unused_before),
          (different, apart),
        )

  pub check_planned_lem :
      (planned : List (String × String))
      → check_planned to_lowercase planned ≡ ok tt
      → All (λ pair. is_same_or_inside to_lowercase pair.0 pair.1 ≡ false) planned
  unfolding check_planned
  check_planned_lem [] h = tt
  check_planned_lem (pair ∷ planned) h =
      let (_, clear, rest) =
        >>=-ok (refuse_if (is_same_or_inside to_lowercase pair.0 pair.1) _) _ h in
      (ground (arith, clear), check_planned_lem planned rest)

  pub path_parts-Placed :
      (root : String) (pair : String × String)
      → is_bare_drive root ≡ false
      → Placed root pair
      → path_parts to_lowercase pair.1 ≡ path_parts to_lowercase root ++ (key pair ∷ [])
  unfolding path_parts
  path_parts-Placed root pair bare p =
      ap (λ path. map to_lowercase (real_parts path)) p.placed
      ∙ ap (map to_lowercase) (real_parts-join root pair.0 p.is_named p.undriven bare)
      ∙ map-append to_lowercase (real_parts root) _

  pub path_parts-source :
      (root : String) (pair : String × String)
      → Placed root pair
      → (before : List String) × (path_parts to_lowercase pair.0 ≡ before ++ (key pair ∷ []))
  unfolding path_parts
  path_parts-source root pair p =
      let (before, same) = real_parts-folder_name pair.0 p.is_named in
      (map to_lowercase before, ap (map to_lowercase) same ∙ map-append to_lowercase before _)
