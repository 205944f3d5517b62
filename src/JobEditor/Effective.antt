-- ===== src/JobEditor/Effective.antt =====
-- What a pinned field does once it is merged over the file's top-level values.
use rustcopy.Base.{
  or_else, unwrap_or, ◌≡◌, refl, sym, Bool, true, false, Option, none, some, Eq, ◌==◌, bool_eq,
  nat_eq, string_eq, list_eq, option_eq, eq_of_test, Bool-cases, inl, inr,
}
use rustcopy.JobEditor.Pinned.{pin_bool, pin}

-- A Boolean is in effect as the form says.
pub pin_bool_lem :
    (own inherited : Option Bool) (value : Bool)
    → unwrap_or (or_else (pin_bool own inherited value) inherited) false ≡ value
unfolding pin_bool bool_eq
pin_bool_lem (some own) inherited value = refl
pin_bool_lem none none true = refl
pin_bool_lem none none false = refl
pin_bool_lem none (some true) true = refl
pin_bool_lem none (some true) false = refl
pin_bool_lem none (some false) true = refl
pin_bool_lem none (some false) false = refl

pub or_else_self {ℓ} : {A : Type ℓ} (o : Option A) → or_else o o ≡ o
or_else_self none = refl
or_else_self (some a) = refl

-- An optional field is in effect as the form says, or as the file does where the form is empty.
pub pin_lem {ℓ} :
    {A : Type ℓ} ⦃e : Eq A⦄ (own inherited value : Option A)
    → or_else (pin own inherited value) inherited ≡ or_else value inherited
unfolding pin
pin_lem (some own) inherited value = refl
pin_lem none inherited value = elim (Bool-cases (value == inherited)) [
  | inl same ↦ rw same (rw (eq_of_test value inherited same) (sym (or_else_self inherited)))
  | inr differ ↦ rw differ refl
]
