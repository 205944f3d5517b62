-- ===== src/Text.antt =====
-- Texts of files as lists of code points: the parts of `str` that the program uses.
use rustcopy.Base.{
  ℕ, ◌≡◌, ◌∙◌, refl, sym, ap, Bool, true, false, ◌&&◌, ◌||◌, List, [], ◌∷◌, ◌++◌, ◌==◌, nat_eq, leb,
  All, append_assoc, append-nil, if◌then◌else◌,
}
use mathlib.Core.List.{reverse}

abbrev pub Text : Type 0
Text = List ℕ

abbrev pub newline : ℕ
newline = 10

-- `char::is_whitespace`
abbrev pub is_whitespace : ℕ → Bool
is_whitespace c =
    (leb 9 c && leb c 13)
    || c == 32
    || c == 0x85
    || c == 0xA0
    || c == 0x1680
    || (leb 0x2000 c && leb c 0x200A)
    || c == 0x2028
    || c == 0x2029
    || c == 0x202F
    || c == 0x205F
    || c == 0x3000

abbrev pub trim_start : Text → Text
trim_start [] = []
trim_start (c ∷ t) = let rest = trim_start t in if is_whitespace c then rest else c ∷ t

unfoldable pub trim : Text → Text
trim t = reverse (trim_start (reverse (trim_start t)))

abbrev pub is_empty : Text → Bool
is_empty [] = true
is_empty (_ ∷ _) = false

-- The lines of a text, without their ends; `line` is the one being read. (A carriage return at the
-- end of a line stays: whoever reads lines here trims them.)
unfoldable pub lines_from : Text → Text → List Text
lines_from line [] = if is_empty line then [] else line ∷ []
lines_from line (c ∷ t) = elim (c == newline) [
  | true ↦ line ∷ lines_from [] t
  | false ↦ lines_from (line ++ (c ∷ [])) t
]

-- No character ends a line.
abbrev pub OneLine : Text → Type 0
OneLine t = All (λ c. (c == newline) ≡ false) t

pub lines_from-append :
    (line t rest : Text) → OneLine t → lines_from line (t ++ rest) ≡ lines_from (line ++ t) rest
lines_from-append line [] rest h = ap (λ l. lines_from l rest) (sym (append-nil line))
lines_from-append line (c ∷ t) rest (a, h) =
    same
    ∙ lines_from-append (line ++ (c ∷ [])) t rest h
    ∙ ap (λ l. lines_from l rest) (append_assoc line (c ∷ []) t)
  where
    same : lines_from line (c ∷ (t ++ rest)) ≡ lines_from (line ++ (c ∷ [])) (t ++ rest)
    same = unfold lines_from in rw (a, lines_from) refl

pub lines_from-newline :
    (line rest : Text) → lines_from line (newline ∷ rest) ≡ line ∷ lines_from [] rest
unfolding lines_from nat_eq
lines_from-newline line rest = refl

pub trim_nil : is_empty (trim []) ≡ true
unfolding trim
trim_nil = refl

pub lines_from-end : (c : ℕ) (t : Text) → OneLine (c ∷ t) → lines_from [] (c ∷ t) ≡ (c ∷ t) ∷ []
lines_from-end c t h =
    ap (λ u. lines_from [] (c ∷ u)) (sym (append-nil t)) ∙ lines_from-append [] (c ∷ t) [] h ∙ last
  where
    last : lines_from (c ∷ t) [] ≡ (c ∷ t) ∷ []
    last = unfold lines_from in refl
