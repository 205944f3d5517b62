-- ===== src/ExitCode.antt =====
-- The exit codes of robocopy: crates/rustcopy-core/src/exit_code.rs.
-- `raw` is an i32. A bit of a code that is not negative is read by division, and the text that
-- `describe` builds is the list of its phrases (the formatting of numbers is left out).
pub mod Laws
use rustcopy.Base.{
  ℕ, zero, ◌*◌, ◌/◌, ◌%◌, String, Bool, true, false, not, ◌&&◌, List, [], ◌∷◌, ◌++◌, ℤ, pos, negsuc,
  ltb, if◌then◌else◌,
}

abbrev pub bit_copied : ℕ
bit_copied = 0x01

abbrev pub bit_extra : ℕ
bit_extra = 0x02

abbrev pub bit_mismatch : ℕ
bit_mismatch = 0x04

abbrev pub bit_copy_errors : ℕ
bit_copy_errors = 0x08

abbrev pub bit_fatal : ℕ
bit_fatal = 0x10

pub record RobocopyStatus : Type 0 where
  pub raw : ℤ

abbrev pub status_of : ℤ → RobocopyStatus
status_of code = record { raw = code }

abbrev is_negative : ℤ → Bool
is_negative (pos n) = false
is_negative (negsuc n) = true

unfoldable pub is_abnormal : RobocopyStatus → Bool
is_abnormal s = is_negative s.raw

-- `raw & bit != 0` for a bit that is a power of two
abbrev pub bit_is_set : ℤ → ℕ → Bool
bit_is_set (pos n) bit = ltb 0 (n / bit % 2)
bit_is_set (negsuc n) bit = false

unfoldable pub has : RobocopyStatus → ℕ → Bool
unfolding is_abnormal
has s bit = not (is_abnormal s) && bit_is_set s.raw bit

unfoldable pub files_copied : RobocopyStatus → Bool
unfolding has
files_copied s = has s bit_copied

unfoldable pub extra_detected : RobocopyStatus → Bool
unfolding has
extra_detected s = has s bit_extra

unfoldable pub mismatch_detected : RobocopyStatus → Bool
unfolding has
mismatch_detected s = has s bit_mismatch

unfoldable pub copy_errors : RobocopyStatus → Bool
unfolding has
copy_errors s = has s bit_copy_errors

unfoldable pub fatal : RobocopyStatus → Bool
unfolding has
fatal s = has s bit_fatal

abbrev is_zero : ℤ → Bool
is_zero (pos zero) = true
is_zero _ = false

unfoldable pub no_change : RobocopyStatus → Bool
no_change s = is_zero s.raw

abbrev below : ℤ → ℕ → Bool
below (pos n) k = ltb n k
below (negsuc n) k = true

unfoldable pub is_success : RobocopyStatus → Bool
unfolding is_abnormal
is_success s = not (is_abnormal s) && below s.raw bit_copy_errors

unfoldable pub should_retry : RobocopyStatus → Bool
unfolding is_abnormal copy_errors fatal
should_retry s = if is_abnormal s then true else copy_errors s && not (fatal s)

-- What `describe` says; each phrase of a `parts` list is one of the five texts.
pub data Description : Type 0 where
  abnormal : ℤ → Description
  in_sync : Description
  unrecognised : ℤ → Description
  parts_with_unknown : List String → ℕ → Description
  parts : List String → Description

abbrev pub phrase : Bool → String → List String
phrase on text = if on then text ∷ [] else []

unfoldable pub known_parts : RobocopyStatus → List String
unfolding files_copied extra_detected mismatch_detected copy_errors fatal
known_parts s =
    phrase (files_copied s) "files copied"
    ++ (phrase (extra_detected s) "extra files or directories detected"
        ++ (phrase (mismatch_detected s) "mismatched files or directories detected"
            ++ (phrase (copy_errors s) "some items could not be copied"
                ++ phrase (fatal s) "fatal error, no files copied")))

-- `raw & !(all five bits)`; `describe` asks for it only of a code that is not negative
abbrev pub unknown_bits : ℤ → ℕ
unknown_bits (pos n) = n / 32 * 32
unknown_bits (negsuc n) = 0

abbrev with_unknown : List String → ℤ → Description
with_unknown [] raw = unrecognised raw
with_unknown (p ∷ ps) raw = parts_with_unknown (p ∷ ps) (unknown_bits raw)

unfoldable pub describe : RobocopyStatus → Description
unfolding is_abnormal no_change
describe s =
    if is_abnormal s
    then abnormal s.raw
    else if no_change s
    then in_sync
    else if ltb 0 (unknown_bits s.raw)
    then with_unknown (known_parts s) s.raw
    else parts (known_parts s)
