-- ===== src/Strings.antt =====
-- The parts of `str` that the configuration is read with, on native texts.
use Prim.Native.Char.{code}
use Prim.Native.String.{String, ◌++◌}
use rustcopy.Base.{
  ℕ, zero, suc, ◌+◌, ◌/◌, ◌%◌, Bool, true, false, ◌&&◌, ◌||◌, Option, none, some, leb, ltb,
  if◌then◌else◌, ◌==◌, nat_eq, list_eq, List, [], ◌∷◌, map,
}
use rustcopy.Text.{is_whitespace}

abbrev pub append : String → String → String
append s t = s ++ t

abbrev pub is_empty_string : String → Bool
is_empty_string String.[] = true
is_empty_string (String.◌∷◌ c s) = false

unfoldable pub trim_start : String → String
trim_start String.[] = String.[]
trim_start (String.◌∷◌ c s) =
    let rest = trim_start s in if is_whitespace (code c) then rest else String.◌∷◌ c s

unfoldable pub trim_end : String → String
trim_end String.[] = String.[]
trim_end (String.◌∷◌ c s) =
    let rest = trim_end s in
    if is_whitespace (code c) && is_empty_string rest then String.[] else String.◌∷◌ c rest

-- `str::trim`
unfoldable pub trim : String → String
unfolding trim_start trim_end
trim s = trim_end (trim_start s)

-- `chars().any(p)`
unfoldable pub any_char : (ℕ → Bool) → String → Bool
any_char p String.[] = false
any_char p (String.◌∷◌ c s) = p (code c) || any_char p s

-- `char::is_control`
abbrev pub is_control : ℕ → Bool
is_control c = leb c 0x1F || (leb 0x7F c && leb c 0x9F)

-- `str::ends_with(c)`
unfoldable pub ends_with : ℕ → String → Bool
ends_with c String.[] = false
ends_with c (String.◌∷◌ d s) = elim s [ String.[] ↦ code d == c | String.◌∷◌ e t ↦ ends_with c s ]

-- `chars().find(p)`, as a text of one character.
unfoldable pub find_char : (ℕ → Bool) → String → Option String
find_char p String.[] = none
find_char p (String.◌∷◌ c s) =
    let rest = find_char p s in if p (code c) then some (String.◌∷◌ c String.[]) else rest

abbrev pub ascii_lower : ℕ → ℕ
ascii_lower c = if leb b'A' c && leb c b'Z' then c + 32 else c

-- `str::eq_ignore_ascii_case`
unfoldable pub eq_ignore_ascii_case : String → String → Bool
eq_ignore_ascii_case String.[] t = is_empty_string t
eq_ignore_ascii_case (String.◌∷◌ c s) String.[] = false
eq_ignore_ascii_case (String.◌∷◌ c s) (String.◌∷◌ d t) =
    ascii_lower (code c) == ascii_lower (code d) && eq_ignore_ascii_case s t

abbrev pub digit : ℕ → String
digit n =
    if n == 0
    then "0"
    else if n == 1
    then "1"
    else if n == 2
    then "2"
    else if n == 3
    then "3"
    else if n == 4
    then "4"
    else if n == 5
    then "5"
    else if n == 6
    then "6"
    else if n == 7
    then "7"
    else if n == 8
    then "8"
    else "9"

-- A number in decimal digits, before a text; a number below the fuel has fewer digits than it.
unfoldable pub decimal_before : ℕ → ℕ → String → String
decimal_before zero n s = s
decimal_before (suc fuel) n s =
    let more = decimal_before fuel (n / 10) (append (digit (n % 10)) s) in
    if ltb n 10 then append (digit n) s else more

-- `format!("{n}")`
unfoldable pub decimal : ℕ → String
decimal n = decimal_before (n + 1) n ""

-- The characters of a text.
abbrev pub codes : String → List ℕ
codes String.[] = []
codes (String.◌∷◌ c s) = code c ∷ codes s

-- `to_ascii_lowercase`
abbrev pub lowered : List ℕ → List ℕ
lowered t = map ascii_lower t

abbrev pub starts_with : List ℕ → List ℕ → Bool
starts_with [] t = true
starts_with (c ∷ p) [] = false
starts_with (c ∷ p) (d ∷ t) = c == d && starts_with p t

-- `str::contains`
abbrev pub contains_text : List ℕ → List ℕ → Bool
contains_text p [] = starts_with p []
contains_text p (c ∷ t) = starts_with p (c ∷ t) || contains_text p t

-- `str::ends_with`, of a text
abbrev pub ends_with_text : List ℕ → List ℕ → Bool
ends_with_text p [] = p == []
ends_with_text p (c ∷ t) = p == c ∷ t || ends_with_text p t

-- A backslash or a slash.
abbrev pub is_separator : ℕ → Bool
is_separator c = c == 92 || c == b'/'
