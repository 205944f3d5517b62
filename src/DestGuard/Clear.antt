-- ===== src/DestGuard/Clear.antt =====
-- When the guard lets a destination pass.
use rustcopy.Base.{
  String, ◌≡◌, refl, sym, ap, ◌∙◌, ◌⊎◌, inl, inr, ◌↔◌, true, false, none, some, List, [], ◌∷◌, ◌++◌,
  ok, err, All, Result-cases, Option-cases,
}
use rustcopy.Errors.{ErrorKind, io, destination_has_link}
use rustcopy.DestGuard.{
  Component, Location, Found, Looks, Listed, find_inside, find_on_way, find_link, ensure_no_links,
  prefix, root_dir, normal, entry, not_there, unreadable,
}

-- A listed entry that could be read and is no link.
abbrev pub NoLink : Listed → Type 0
NoLink (ok (path, is_link)) = is_link ≡ false
NoLink (err e) = ⊥

-- From a place on the way down: every folder is there and is no link, down to the end, where
-- nothing listed is one; or down to the first folder that is not there.
pub Clear : Looks → List Listed → Location → List Component → Type 0
Clear looks listed current [] = All NoLink listed
Clear looks listed current (prefix ∷ rest) = Clear looks listed (current ++ (prefix ∷ [])) rest
Clear looks listed current (root_dir ∷ rest) = Clear looks listed (current ++ (root_dir ∷ [])) rest
Clear looks listed current (normal name ∷ rest) =
    (looks (current ++ (normal name ∷ [])) ≡ not_there)
    ⊎ ((looks (current ++ (normal name ∷ [])) ≡ entry false)
        × Clear looks listed (current ++ (normal name ∷ [])) rest)

find_inside-NoLink : (listed : List Listed) → find_inside listed ≡ ok none ↔ All NoLink listed
unfolding find_inside
find_inside-NoLink [] = ((λ h. tt), (λ h. refl))
find_inside-NoLink (err e ∷ listed) = ((λ h. cc), (λ h. absurd h.0))
find_inside-NoLink (ok (path, true) ∷ listed) = ((λ h. cc), (λ (h, _). cc))
find_inside-NoLink (ok (path, false) ∷ listed) =
    ((λ h. (refl, (find_inside-NoLink listed).0 h)), (λ (_, h). (find_inside-NoLink listed).1 h))

Found-cases :
    (f : Found)
    → (f ≡ entry true)
      ⊎ (f ≡ entry false)
      ⊎ (f ≡ not_there)
      ⊎ ((e : ErrorKind) × (f ≡ unreadable e))
Found-cases (entry true) = inl refl
Found-cases (entry false) = inr (inl refl)
Found-cases not_there = inr (inr (inl refl))
Found-cases (unreadable e) = inr (inr (inr (e, refl)))

find_on_way-Clear :
    (looks : Looks) (listed : List Listed) (current : Location) (rest : List Component)
    → find_on_way looks listed current rest ≡ ok none ↔ Clear looks listed current rest
unfolding find_on_way Clear
find_on_way-Clear looks listed current [] = find_inside-NoLink listed
find_on_way-Clear looks listed current (prefix ∷ rest) =
    find_on_way-Clear looks listed (current ++ (prefix ∷ [])) rest
find_on_way-Clear looks listed current (root_dir ∷ rest) =
    find_on_way-Clear looks listed (current ++ (root_dir ∷ [])) rest
find_on_way-Clear looks listed current (normal name ∷ rest) =
    let here = current ++ (normal name ∷ []) in
    let ih = find_on_way-Clear looks listed here rest in
    elim (Found-cases (looks here)) [
      | inl link ↦
          let step : find_on_way looks listed current (normal name ∷ rest) ≡ ok (some here) =
            rw (link, find_on_way) refl in
          (
            (λ h. cc (step, h)),
            (λ h. elim h [ inl absent ↦ cc (link, absent) | inr (plain, _) ↦ cc (link, plain) ]),
          )
      | inr (inl plain) ↦
          let step : find_on_way looks listed current (normal name ∷ rest)
              ≡ find_on_way looks listed here rest =
            rw (plain, find_on_way) refl in
          (
            (λ h. inr (plain, ih.0 (sym step ∙ h))),
            (λ h. elim h [ inl absent ↦ cc (plain, absent) | inr (_, clear) ↦ step ∙ ih.1 clear ]),
          )
      | inr (inr (inl absent)) ↦
          let step : find_on_way looks listed current (normal name ∷ rest) ≡ ok none =
            rw (absent, find_on_way) refl in
          ((λ h. inl absent), (λ h. step))
      | inr (inr (inr (e, bad))) ↦
          let step : find_on_way looks listed current (normal name ∷ rest) ≡ err e =
            rw (bad, find_on_way) refl in
          (
            (λ h. cc (step, h)),
            (λ h. elim h [ inl absent ↦ cc (bad, absent) | inr (plain, _) ↦ cc (bad, plain) ]),
          )
    ]

-- The guard passes exactly when, on the way to the destination, every folder down to the first that
-- is not there is no link, and, when all are there, every entry under the destination could be read
-- and is no link: what cannot be looked at is refused as well.
pub ensure_no_links_lem :
    (display : Location → String) (looks : Looks) (listed : List Listed) (dest : Location)
    → ensure_no_links display looks listed dest ≡ ok tt ↔ Clear looks listed [] dest
unfolding ensure_no_links find_link
ensure_no_links_lem display looks listed dest =
    let clear = find_on_way-Clear looks listed [] dest in
    elim (Result-cases (find_on_way looks listed [] dest)) [
      | inr (e, bad) ↦
          let step : ensure_no_links display looks listed dest ≡ err (io (display dest) e) =
            rw (bad, ensure_no_links) refl in
          ((λ h. cc (step, h)), (λ h. cc (clear.1 h)))
      | inl (found, good) ↦ elim (Option-cases found) [
        | inl nothing ↦
            let step : ensure_no_links display looks listed dest ≡ ok tt =
              rw (good, nothing, ensure_no_links) refl in
            ((λ h. clear.0 (good ∙ ap (λ f. ok f) nothing)), (λ h. step))
        | inr (path, link) ↦
            let step : ensure_no_links display looks listed dest
                ≡ err (destination_has_link (display path)) =
              rw (good, link, ensure_no_links) refl in
            ((λ h. cc (step, h)), (λ h. cc (clear.1 h)))
      ]
    ]
