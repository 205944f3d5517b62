-- ===== src/Schedule/Split.antt =====
-- What the quoting of schedule.rs is judged by: the rules by which a Windows program reads its
-- command line. Blanks outside quotes end an argument; of the backslashes before a quote every pair
-- stands for one backslash, and an odd one makes the quote a character.
use rustcopy.Base.{
  ℕ, zero, suc, Bool, true, false, not, ◌&&◌, ◌||◌, List, [], ◌∷◌, ◌++◌, ◌==◌, nat_eq,
  if◌then◌else◌,
}
use rustcopy.Text.{Text}
use rustcopy.Schedule.{quote, backslash, space}

-- The argument being read: whether one has begun, whether inside quotes, what it has so far, and
-- the backslashes seen since.
pub record Reading : Type 0 where
  pub begun : Bool
  pub quoted : Bool
  pub current : Text
  pub slashes : ℕ

abbrev pub nothing_read : Reading
nothing_read = record { begun = false; quoted = false; current = []; slashes = 0 }

abbrev pub repeated : ℕ → Text
repeated zero = []
repeated (suc n) = backslash ∷ repeated n

-- Half the backslashes, and whether one is left over.
abbrev pub halves : ℕ → ℕ × Bool
halves zero = (zero, false)
halves (suc zero) = (zero, true)
halves (suc (suc n)) = let (half, odd) = halves n in (suc half, odd)

unfoldable pub at_quote : Reading → Reading
at_quote r =
    let (half, odd) = halves r.slashes in
    record {
      begun = true;
      quoted = if odd then r.quoted else not r.quoted;
      current = r.current ++ (repeated half ++ (if odd then quote ∷ [] else []));
      slashes = 0;
    }

abbrev pub is_blank : ℕ → Bool
is_blank c = c == space || c == 9

unfoldable pub split_from : Reading → Text → List Text
split_from r [] = if r.begun then (r.current ++ repeated r.slashes) ∷ [] else []
split_from r (c ∷ t) =
    let slash = split_from (record r { begun = true; slashes = suc r.slashes }) t in
    let quoting = split_from (at_quote r) t in
    let between = split_from nothing_read t in
    let more =
      split_from
        (record r {
          begun = true;
          current = r.current ++ (repeated r.slashes ++ (c ∷ []));
          slashes = 0;
        })
        t in
    if c == backslash
    then slash
    else if c == quote
    then quoting
    else if is_blank c && not r.quoted
    then (if r.begun then (r.current ++ repeated r.slashes) ∷ between else between)
    else more
