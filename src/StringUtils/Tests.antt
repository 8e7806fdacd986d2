-- ===== src/StringUtils/Tests.antt =====
-- Runs of src/StringUtils.cpp and src/StringUtils.h, and the theorems at concrete texts.
use ucxx.Base.{ℕ, ◌≡◌, refl, [], List, none, some, arith, codes}
use ucxx.Base.Int.{pos, negsuc}
use ucxx.StringUtils.{
  white_space_characters, contains, first_not_of, last_not_of, erase, rtrim, ltrim, trim,
}
use ucxx.StringUtils.Number.{
  emit_digits, print_int, skip_space, read_digits, read_int, extract_int, number_to_string,
  string_to_number,
}
use ucxx.StringUtils.Trim.{Trimmed, trim_parts}

trims :
    (trim (codes " a b ") none ≡ some (codes "a b"))
    × (rtrim (codes "xaxx") (some (codes "x")) ≡ some (codes "xa"))
    × (ltrim (codes "xaxx") (some (codes "x")) ≡ some (codes "axx"))
    × (trim (codes "   ") none ≡ some [])
unfolding trim rtrim ltrim erase first_not_of last_not_of contains
trims = (refl, refl, refl, refl)

numbers :
    (number_to_string print_int (negsuc 1029) ≡ codes "-1030")
    × (number_to_string print_int (pos 0) ≡ codes "0")
    × (string_to_number extract_int (codes " +12ab") ≡ some (pos 12))
    × (string_to_number extract_int (codes "99999999999") ≡ some (pos 2147483647))
    × (string_to_number extract_int (codes "-99999999999") ≡ some (negsuc 2147483647))
    × (string_to_number extract_int (codes "true") ≡ some (pos 0))
    × (string_to_number extract_int [] ≡ none)
unfolding number_to_string print_int emit_digits string_to_number extract_int skip_space read_int
    read_digits
numbers = (refl, refl, refl, refl, refl, refl, refl)

trim_parts_example :
    (r : List ℕ) × (trim (codes " a b ") none ≡ some r)
    × Trimmed white_space_characters (codes " a b ") r
trim_parts_example = trim_parts (codes " a b ") none (omega arith)
