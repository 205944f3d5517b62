-- ===== src/JobEditor/Kept.antt =====
-- A field that the form shows as it is in effect is written back as the job had it: the pins of
-- crates/rustcopy-core/src/job_editor.rs.
use rustcopy.Base.{
  or_else, unwrap_or, ◌≡◌, refl, String, Bool, false, Option, none, some, List, [], ◌∷◌, Eq, ◌==◌,
  ◌⊎◌, bool_eq, nat_eq, string_eq, list_eq, option_eq, eq_self, Bool-cases, inl, inr,
}
use rustcopy.Generations.{backup_type_eq}
use rustcopy.Checkpoint.{hash_algorithm_eq}
use rustcopy.Strings.{trim, is_empty_string}
use rustcopy.JobEditor.Pinned.{pin, pin_bool, list_of, required_path, path_of}

-- A field that the job sets is not set to nothing.
abbrev pub NotBlank : Option String → Type 0
NotBlank none = Unit
NotBlank (some text) = is_empty_string (trim text) ≡ false

abbrev pub NotEmpty : Option (List String) → Type 0
NotEmpty none = Unit
NotEmpty (some []) = ⊥
NotEmpty (some (item ∷ items)) = Unit

pub pin_bool_own :
    (own inherited : Option Bool)
    → pin_bool own inherited (unwrap_or (or_else own inherited) false) ≡ own
unfolding pin_bool bool_eq
pin_bool_own (some own) inherited = refl
pin_bool_own none inherited = rw (eq_self (unwrap_or inherited false)) refl

-- A field that the job leaves open stays open if the form holds the inherited value, or nothing.
pin_open {ℓ} :
    {A : Type ℓ} ⦃e : Eq A⦄ (inherited value : Option A)
    → (value ≡ inherited) ⊎ (value ≡ none)
    → pin none inherited value ≡ none
unfolding pin
pin_open inherited value (inl same) = rw same (rw (eq_self inherited) refl)
pin_open inherited value (inr empty) =
    rw empty (elim (Bool-cases (none == inherited)) [ inl b ↦ rw b refl | inr b ↦ rw b refl ])

pub pin_own {ℓ} :
    {A : Type ℓ} ⦃e : Eq A⦄ (own inherited : Option A)
    → pin own inherited (or_else own inherited) ≡ own
unfolding pin
pin_own (some own) inherited = refl
pin_own none inherited = unfold pin in pin_open inherited inherited (inl refl)

required_path_own :
    (text : String) → is_empty_string (trim text) ≡ false → required_path text ≡ some text
unfolding required_path
required_path_own text h = rw h refl

required_path_nil : required_path "" ≡ none
unfolding required_path trim
required_path_nil = refl

required_path-cases :
    (inherited : Option String)
    → (required_path (unwrap_or inherited "") ≡ inherited)
      ⊎ (required_path (unwrap_or inherited "") ≡ none)
unfolding required_path
required_path-cases none = inl required_path_nil
required_path-cases (some text) = elim (Bool-cases (is_empty_string (trim text))) [
  | inl blank ↦ inr (rw blank refl)
  | inr full ↦ inl (rw full refl)
]

pub pin_required_own :
    (own inherited : Option String)
    → NotBlank own
    → pin own inherited (required_path (unwrap_or (or_else own inherited) "")) ≡ own
unfolding pin
pin_required_own (some own) inherited h = required_path_own own h
pin_required_own none inherited h =
    unfold pin in pin_open inherited _ (required_path-cases inherited)

path_of-cases :
    (inherited : Option String) → (path_of inherited ≡ inherited) ⊎ (path_of inherited ≡ none)
unfolding path_of
path_of-cases none = inl refl
path_of-cases (some text) = required_path-cases (some text)

pub pin_path_own :
    (own inherited : Option String)
    → NotBlank own
    → pin own inherited (path_of (or_else own inherited)) ≡ own
unfolding pin path_of
pin_path_own (some own) inherited h = required_path_own own h
pin_path_own none inherited h = unfold pin in pin_open inherited _ (path_of-cases inherited)

list_of-cases :
    (inherited : Option (List String))
    → (list_of (unwrap_or inherited []) ≡ inherited) ⊎ (list_of (unwrap_or inherited []) ≡ none)
list_of-cases none = inl refl
list_of-cases (some []) = inr refl
list_of-cases (some (item ∷ items)) = inl refl

pub pin_list_own :
    (own inherited : Option (List String))
    → NotEmpty own
    → pin own inherited (list_of (unwrap_or (or_else own inherited) [])) ≡ own
unfolding pin
pin_list_own (some []) inherited h = absurd h
pin_list_own (some (item ∷ items)) inherited h = refl
pin_list_own none inherited h = unfold pin in pin_open inherited _ (list_of-cases inherited)
