-- ===== src/Examples/CommandLines.antt =====
-- The command line of a schedule at concrete inputs.
use rustcopy.Base.{◌≡◌, refl, true, false, [], ◌∷◌, ◌++◌, nat_eq}
use rustcopy.Text.{Text}
use rustcopy.Schedule.{build_task_arguments, quote, backslash, space, any_whitespace}
use rustcopy.Schedule.Split.{split_from, nothing_read}
use rustcopy.Schedule.Quoting.{Quotable, split-build_task_arguments}
use rustcopy.Schedule.Merging.{build_task_arguments-merges}

-- "a b" and "-c"
abbrev with_blank : Text
with_blank = 97 ∷ space ∷ 98 ∷ []

abbrev switch : Text
switch = 45 ∷ 99 ∷ []

with_blank-Quotable : Quotable with_blank
unfolding nat_eq
with_blank-Quotable = ((refl, (refl, (refl, tt))), refl)

switch-Quotable : Quotable switch
unfolding nat_eq
switch-Quotable = ((refl, (refl, tt)), refl)

split-build_task_arguments_example :
    split_from nothing_read (build_task_arguments (with_blank ∷ switch ∷ []))
    ≡ with_blank ∷ switch ∷ []
split-build_task_arguments_example =
    split-build_task_arguments (with_blank ∷ switch ∷ [])
      (with_blank-Quotable, (switch-Quotable, tt))

has_blank : any_whitespace with_blank ≡ true
unfolding nat_eq
has_blank = refl

no_blank : any_whitespace switch ≡ false
unfolding nat_eq
no_blank = refl

build_task_arguments-merges_example :
    split_from nothing_read (build_task_arguments ((with_blank ++ (backslash ∷ [])) ∷ switch ∷ []))
    ≡ (with_blank ++ (quote ∷ space ∷ switch)) ∷ []
build_task_arguments-merges_example =
    build_task_arguments-merges with_blank switch with_blank-Quotable has_blank switch-Quotable.0
      refl no_blank
