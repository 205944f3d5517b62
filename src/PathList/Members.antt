-- ===== src/PathList/Members.antt =====
-- Which paths a list has, after others have been taken out or put in.
use rustcopy.Base.{
  refl, sym, ◌∙◌, ◌≡◌, ap, Bool, true, false, ◌||◌, List, [], ◌∷◌, ◌++◌, keep_if, All, ◌==◌, nat_eq,
  list_eq, arith, Bool-cases, inl, inr, if◌then◌else◌, eq_of_test, eq_self,
}
use rustcopy.Text.{Text}
use rustcopy.PathList.{same_path, any_same, others, AllApart}

pub All-keep_if {κ} :
    (P : Text → Type κ) (p : Text → Bool) (xs : List Text) → All P xs → All P (keep_if p xs)
All-keep_if P p [] h = tt
All-keep_if P p (x ∷ xs) (h, hs) = elim (Bool-cases (p x)) [
  | inl e ↦ rw e (h, All-keep_if P p xs hs)
  | inr e ↦ rw e (All-keep_if P p xs hs)
]

pub All-snoc {κ} :
    (P : Text → Type κ) (xs : List Text) (x : Text) → All P xs → P x → All P (xs ++ (x ∷ []))
All-snoc P [] x h k = (k, tt)
All-snoc P (y ∷ ys) x (h, hs) k = (h, All-snoc P ys x hs k)

module _ (to_lowercase : Text → Text) where
  same_left :
      (a b c : Text)
      → same_path to_lowercase a b ≡ true
      → same_path to_lowercase a c ≡ same_path to_lowercase b c
  same_left a b c h = ap (λ k. k == to_lowercase c) (eq_of_test (to_lowercase a) (to_lowercase b) h)

  same_right :
      (a b c : Text)
      → same_path to_lowercase b c ≡ true
      → same_path to_lowercase a b ≡ same_path to_lowercase a c
  same_right a b c h =
      ap (λ k. to_lowercase a == k) (eq_of_test (to_lowercase b) (to_lowercase c) h)

  -- Whether a path is in a list, after another has been taken out of it.
  pub any_same-others :
      (paths : List Text) (taken wanted : Text)
      → any_same to_lowercase (others to_lowercase paths taken) wanted ≡ (
          if same_path to_lowercase taken wanted then false else any_same to_lowercase paths wanted)
  any_same-others [] taken wanted = ground arith
  any_same-others (path ∷ paths) taken wanted =
      let rest = any_same-others paths taken wanted in
      elim (Bool-cases (same_path to_lowercase path taken)) [
        | inl same ↦ let e = same_left path taken wanted same in ground (arith, rest, e, same)
        | inr differs ↦ ground (arith, rest, differs, same_right path taken wanted)
      ]

  pub any_same-snoc :
      (paths : List Text) (path wanted : Text)
      → any_same to_lowercase (paths ++ (path ∷ [])) wanted
        ≡ (any_same to_lowercase paths wanted || same_path to_lowercase path wanted)
  any_same-snoc [] path wanted = ground arith
  any_same-snoc (p ∷ paths) path wanted = ground (arith, any_same-snoc paths path wanted)

  pub AllApart-others :
      (paths : List Text) (taken : Text)
      → AllApart to_lowercase paths
      → AllApart to_lowercase (others to_lowercase paths taken)
  AllApart-others [] taken h = tt
  AllApart-others (path ∷ paths) taken (h, hs) =
      elim (Bool-cases (same_path to_lowercase path taken)) [
        | inl same ↦ rw same (AllApart-others paths taken hs)
        | inr differs ↦
            let alone : any_same to_lowercase (others to_lowercase paths taken) path ≡ false =
              any_same-others paths taken path ∙ ground (arith, h) in
            rw differs (alone, AllApart-others paths taken hs)
      ]

  same_path_flips :
      (a b : Text) → same_path to_lowercase a b ≡ false → same_path to_lowercase b a ≡ false
  same_path_flips a b h = elim (Bool-cases (same_path to_lowercase b a)) [
    | inl same ↦ cc (sym h ∙ same_right a b a same ∙ eq_self (to_lowercase a))
    | inr differs ↦ differs
  ]

  pub AllApart-snoc :
      (paths : List Text) (path : Text)
      → AllApart to_lowercase paths
      → any_same to_lowercase paths path ≡ false
      → AllApart to_lowercase (paths ++ (path ∷ []))
  AllApart-snoc [] path h new = (refl, tt)
  AllApart-snoc (p ∷ paths) path (h, hs) new =
      let apart = same_path_flips p path (ground (arith, new)) in
      (
        any_same-snoc paths path p ∙ ground (arith, h, apart),
        AllApart-snoc paths path hs (ground (arith, new)),
      )

  -- Two spellings of one path are in the same lists.
  pub any_same-same :
      (paths : List Text) (a b : Text)
      → same_path to_lowercase a b ≡ true
      → any_same to_lowercase paths a ≡ any_same to_lowercase paths b
  any_same-same [] a b h = refl
  any_same-same (p ∷ paths) a b h = rw (same_right p a b h) (rw (any_same-same paths a b h) refl)
