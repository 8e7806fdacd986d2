-- ===== src/StringUtils.antt =====
-- src/StringUtils.h, src/StringUtils.cpp. A std::string is the list of its bytes; a C string is the
-- list of the bytes before its terminator, and a null pointer is `none`.
pub mod Number
pub mod Runs
pub mod Trim
pub mod Decimal
mod Tests
use ucxx.Base.{
  ℕ, zero, suc, ◌+◌, ◌-◌, ◌%◌, ◌^◌, List, [], ◌∷◌, Option, none, some, Bool, false, ◌||◌, leb, ◌==◌,
  if◌then◌else◌, length, take, drop,
}

abbrev pub npos : ℕ
npos = 2 ^ 64 - 1

-- " \t\n\r\f\v"
abbrev pub white_space_characters : List ℕ
white_space_characters = b' ' ∷ 9 ∷ 10 ∷ 13 ∷ 12 ∷ 11 ∷ []

unfoldable pub contains : List ℕ → ℕ → Bool
contains [] c = false
contains (d ∷ t) c = d == c || contains t c

-- std::string::find_first_not_of; `i` is the index of the first character of the rest.
unfoldable pub first_not_of : List ℕ → List ℕ → ℕ → ℕ
unfolding contains
first_not_of t [] i = npos
first_not_of t (c ∷ s) i = let rest = first_not_of t s (i + 1) in if contains t c then rest else i

-- std::string::find_last_not_of
unfoldable pub last_not_of : List ℕ → List ℕ → ℕ → ℕ
unfolding contains
last_not_of t [] i = npos
last_not_of t (c ∷ s) i =
    let later = last_not_of t s (i + 1) in
    if later == npos then (if contains t c then npos else i) else later

-- std::string::erase(pos, n); `none` is the exception std::out_of_range.
unfoldable pub erase : List ℕ → ℕ → ℕ → Option (List ℕ)
erase s zero n = some (drop n s)
erase [] (suc pos) n = none
erase (c ∷ s) (suc pos) n = elim (erase s pos n) [ none ↦ none | some r ↦ some (c ∷ r) ]

abbrev white_space : Option (List ℕ) → List ℕ
white_space none = white_space_characters
white_space (some t) = t

-- The sum is a size_t: with no character found it wraps around to 0.
unfoldable pub rtrim : List ℕ → Option (List ℕ) → Option (List ℕ)
unfolding last_not_of erase
rtrim s t = erase s ((last_not_of (white_space t) s 0 + 1) % 2 ^ 64) npos

unfoldable pub ltrim : List ℕ → Option (List ℕ) → Option (List ℕ)
unfolding first_not_of erase
ltrim s t = erase s 0 (first_not_of (white_space t) s 0)

unfoldable pub trim : List ℕ → Option (List ℕ) → Option (List ℕ)
unfolding rtrim ltrim
trim s t = elim (rtrim s (some (white_space t))) [
  | none ↦ none
  | some r ↦ ltrim r (some (white_space t))
]
