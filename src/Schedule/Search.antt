-- ===== src/Schedule/Search.antt =====
-- The search of `first_start` of schedule.rs through the days of a week.
use rustcopy.Base.{
  ℕ, zero, suc, ◌+◌, ◌-◌, ◌%◌, ◌≤◌, ◌<◌, ◌≡◌, refl, ◌∙◌, sym, ap, Bool, true, false, ◌&&◌, some,
  List, [], ◌∷◌, ◌==◌, nat_eq, list_eq, contains, get_elem?, unwrap_or, length, arith, Bool-cases,
  inl, inr, le_or_lt, eq_of_test, subst,
}
use rustcopy.Text.{Text}
use rustcopy.Schedule.Spec.{weekday_codes}
use rustcopy.Schedule.Start.{Moment, is_after, TimeReader, at_day, weekday_code, search_week}

abbrev pub tick_of : TimeReader → Text → ℕ
tick_of read time = unwrap_or (read time) 0

-- The first moment after `now` at a time of one of the days.
pub record FirstOf (read : TimeReader) (days : List Text) (time : Text) (now start : Moment)
    : Type 0 where
  pub on_time : start.tick ≡ tick_of read time
  pub on_day : contains days (weekday_code start.day) ≡ true
  pub later : is_after start now ≡ true
  pub first :
      (m : Moment)
      → m.tick ≡ tick_of read time
      → contains days (weekday_code m.day) ≡ true
      → is_after m now ≡ true
      → is_after start m ≡ false

after-day-le : (m now : Moment) → is_after m now ≡ true → now.day ≤ m.day
unfolding nat_eq
after-day-le m now h = ground (arith, h)

same_time-not_after :
    (day tick : ℕ) (m : Moment)
    → day ≤ m.day
    → m.tick ≡ tick
    → is_after (record { day = day; tick = tick }) m ≡ false
unfolding nat_eq
same_time-not_after day tick m le same = ground (arith, le, same)

later_day :
    (day tick : ℕ) (now : Moment)
    → now.day < day
    → is_after (record { day = day; tick = tick }) now ≡ true
later_day day tick now h = ground (arith, h)

module _ (read : TimeReader) (days : List Text) (time : Text) (now : Moment) where
  abbrev suits : ℕ → Bool
  suits day = contains days (weekday_code day) && is_after (at_day read day time) now

  -- A day that suits, where none before it does.
  suits-FirstOf :
      (day : ℕ)
      → suits day ≡ true
      → ((d : ℕ) → now.day ≤ d → d < day → suits d ≡ false)
      → FirstOf read days time now (at_day read day time)
  suits-FirstOf day h none_before = record {
    on_time = refl;
    on_day = ground (arith, h);
    later = ground (arith, h);
    first = λ m same listed after. elim (le_or_lt day m.day) [
      | inl le ↦ same_time-not_after day (unwrap_or (read time) 0) m le same
      | inr lt ↦
          let missed = none_before m.day (after-day-le m now after) lt in
          let there : is_after (at_day read m.day time) now ≡ true =
            subst (λ t. is_after (record { day = m.day; tick = t }) now ≡ true) same after in
          absurd (ground (arith, missed, listed, there))
    ];
  }

  -- A listed day behind today suits.
  listed-suits :
      (w : ℕ)
      → 0 < w
      → contains days (weekday_code (now.day + w)) ≡ true
      → suits (now.day + w) ≡ true
  listed-suits w pos listed =
      rw (listed, later_day (now.day + w) (unwrap_or (read time) 0) now (omega (arith, pos))) refl

  pub search_week-FirstOf :
      (offset left w : ℕ)
      → ((d : ℕ) → now.day ≤ d → d < now.day + offset → suits d ≡ false)
      → 0 < w
      → offset ≤ w
      → w < offset + left
      → contains days (weekday_code (now.day + w)) ≡ true
      → FirstOf read days time now (search_week read days time now offset left)
  unfolding search_week
  search_week-FirstOf offset zero w none_before pos low high listed =
      absurd (omega (arith, low, high))
  search_week-FirstOf offset (suc left) w none_before pos low high listed =
      elim (Bool-cases (suits (now.day + offset))) [
        | inl hit ↦ rw hit (suits-FirstOf (now.day + offset) hit none_before)
        | inr miss ↦ rw miss (
            search_week-FirstOf (offset + 1) left w
              (λ d le lt. elim (le_or_lt (now.day + offset) d) [
                | inl at ↦ subst (λ e. suits e ≡ false) (omega (arith, at, lt)) miss
                | inr before ↦ none_before d le before
              ])
              pos
              (elim (le_or_lt w offset) [
                | inl le ↦
                    let here : suits (now.day + offset) ≡ true =
                      subst (λ o. suits (now.day + o) ≡ true) (omega (arith, le, low))
                        (listed-suits w pos listed) in
                    absurd (ground (arith, here, miss))
                | inr lt ↦ omega (arith, lt)
              ])
              (omega (arith, high)) listed)
      ]

-- A code is that of one of the next seven days.
get_elem?-contains :
    (xs : List Text) (a : Text)
    → contains xs a ≡ true
    → (i : ℕ) × (get_elem? xs i ≡ some a) × (i < length xs)
get_elem?-contains [] a h = cc
get_elem?-contains (x ∷ xs) a h = elim (Bool-cases (a == x)) [
  | inl same ↦ (0, ap some (sym (eq_of_test a x same)), omega arith)
  | inr differs ↦
      let (i, at, lt) = get_elem?-contains xs a (rw differs at h) in (suc i, at, omega (arith, lt))
]

coming : (day i : ℕ) → i < 7 → (w : ℕ) × (0 < w) × (w ≤ 7) × ((day + w) % 7 ≡ i)
coming day i h = (7 - (day + 7 - i) % 7, omega arith, omega arith, omega (arith, h))

pub coming_day :
    (day : ℕ) (code : Text)
    → contains weekday_codes code ≡ true
    → (w : ℕ) × (0 < w) × (w ≤ 7) × (weekday_code (day + w) ≡ code)
coming_day day code h =
    let (i, at, lt) = get_elem?-contains weekday_codes code h in
    let (w, pos, le, same) = coming day i lt in
    (
      w,
      pos,
      le,
      ap (λ k. unwrap_or (get_elem? weekday_codes k) []) same ∙ ap (λ o. unwrap_or o []) at,
    )
