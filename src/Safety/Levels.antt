-- ===== src/Safety/Levels.antt =====
-- The levels and the change of the level.
use rustcopy.Base.{
  Option, some, Option-cases, false, ◌⊎◌, inl, inr, ◌≡◌, ◌≤◌, ◌<◌, ◌↔◌, refl, Bool, true, not, ◌&&◌,
  List, [], ◌∷◌, ◌++◌, ok, err, ◌==◌, ltb, if◌then◌else◌, nat_eq, arith, Bool-cases, ap, sym,
  eq_of_test, ◌∙◌,
}
use rustcopy.Errors.{IngestError, copy_plan_invalid}
use rustcopy.Safety.{
  confirmed, not_confirmed, raise_unconfirmed, SafetyLevel, Feature, rank, allows, required_level,
  lock_reason, Confirmation, Folder, Stored, load, set, name, is_confirmed, without_bom,
}

-- A higher level unlocks whatever a lower one does, and a feature is locked, with the name of the
-- level it asks for, exactly when the level in force is below that one.
pub allows_grows :
    (low high : SafetyLevel) (feature : Feature)
    → rank low ≤ rank high
    → ((allows low feature ≡ false) ⊎ (allows high feature ≡ true))
      × ((lock_reason low feature ≡ some (name (required_level feature)))
          ↔ (rank low < rank (required_level feature)))
unfolding allows lock_reason
allows_grows low high feature h = (
  elim (Bool-cases (allows low feature)) [
    | inr locked ↦ inl locked
    | inl unlocked ↦ inr (ground (arith, unlocked, h))
  ],
  ((λ k. ground arith), (λ k. ground arith)),
)

rank_inj : (a b : SafetyLevel) → rank a ≡ rank b → a ≡ b
rank_inj a b h = ground arith

load-stored :
    (s : Stored) (target : SafetyLevel) (log : List (SafetyLevel × SafetyLevel))
    → s.parse_level (without_bom (s.print_level target)) ≡ some target
    → load s (record { settings = some (s.print_level target); log = log }) ≡ target
unfolding load
load-stored s target log reads = rw (reads, load) refl

set-cases :
    (s : Stored) (failure : Option IngestError) (log_writable : Bool) (dir : Folder)
    (target : SafetyLevel) (c : Confirmation)
    → ((set s failure log_writable dir target c ≡ (dir, ok target)) × (load s dir ≡ target))
      ⊎ ((e : IngestError) × (set s failure log_writable dir target c ≡ (dir, err e)))
      ⊎ ((log : List (SafetyLevel × SafetyLevel)) × (set s failure log_writable dir target c
            ≡ (record { settings = some (s.print_level target); log = log }, ok target))
          × (c ≡ not_confirmed → rank target ≤ rank (load s dir)))
unfolding set
set-cases s failure log_writable dir target c =
    elim (Bool-cases (rank target == rank (load s dir))) [
      | inl same ↦ inl (
        rw (same, set)
            (ap (λ l. (dir, ok l)) (sym (rank_inj target (load s dir) (eq_of_test _ _ same)))),
        sym (rank_inj target (load s dir) (eq_of_test _ _ same)),
      )
      | inr other ↦
          elim (Bool-cases (ltb (rank (load s dir)) (rank target) && not (is_confirmed c))) [
            | inl raises ↦
                inr (inl (copy_plan_invalid raise_unconfirmed, rw (other, raises, set) refl))
            | inr may ↦ elim (Option-cases failure) [
              | inl can ↦ inr (
                  inr (
                    if log_writable then dir.log ++ ((load s dir, target) ∷ []) else dir.log,
                    rw (other, may, can, set) refl,
                    λ k. ground (arith, may, k),
                  ))
              | inr (e, cannot) ↦ inr (inl (e, rw (other, may, cannot, set) refl))
            ]
          ]
    ]

confirmed_or : (c : Confirmation) → (c ≡ confirmed) ⊎ (c ≡ not_confirmed)
confirmed_or confirmed = inl refl
confirmed_or not_confirmed = inr refl

-- A change of the level either is answered with the target, and the next reading finds the target;
-- or it is refused, and the folder is as it was. Without a confirmation the level in force does not
-- rise. (What serde_json prints of a level reads back as that level.)
pub set_lem :
    (s : Stored) (failure : Option IngestError) (log_writable : Bool) (dir : Folder)
    (target : SafetyLevel) (c : Confirmation)
    → ((level : SafetyLevel) → s.parse_level (without_bom (s.print_level level)) ≡ some level)
    → (((set s failure log_writable dir target c).1 ≡ ok target)
          × (load s (set s failure log_writable dir target c).0 ≡ target)
        ⊎ ((e : IngestError) × (set s failure log_writable dir target c ≡ (dir, err e))))
      × ((c ≡ confirmed)
          ⊎ (rank (load s (set s failure log_writable dir target c).0) ≤ rank (load s dir)))
set_lem s failure log_writable dir target c reads =
    elim (set-cases s failure log_writable dir target c) [
      | inl (e, now) ↦
          (inl (ap (λ r. r.1) e, ap (λ r. load s r.0) e ∙ now), inr (rw e (omega arith)))
      | inr (inl (e, p)) ↦ (inr (e, p), inr (rw p (omega arith)))
      | inr (inr (log, p, down)) ↦ (
        inl (ap (λ r. r.1) p, ap (λ r. load s r.0) p ∙ load-stored s target log (reads target)),
        elim (confirmed_or c) [
          | inl agreed ↦ inl agreed
          | inr not_agreed ↦ inr (rw (p, load-stored s target log (reads target)) (down not_agreed))
        ],
      )
    ]
