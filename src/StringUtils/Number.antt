-- ===== src/StringUtils/Number.antt =====
-- src/StringUtils.h: numberToString and stringToNumber, and the standard library's formatting of an
-- `int` that they go through (`operator <<` and `operator >>` in the C locale).
use ucxx.Base.{
  ℕ, zero, suc, ◌+◌, ◌-◌, ◌*◌, ◌/◌, ◌%◌, ◌^◌, List, [], ◌∷◌, ◌++◌, Option, none, some, Bool, ◌&&◌,
  ◌||◌, ltb, leb, ◌==◌, if◌then◌else◌,
}
use ucxx.Base.Int.{ℤ, pos, negsuc}

-- The digits of `n` before `out`, at most `fuel` of them.
unfoldable pub emit_digits : ℕ → ℕ → List ℕ → List ℕ
emit_digits zero n out = out
emit_digits (suc fuel) n out =
    let more = emit_digits fuel (n / 10) ((b'0' + n % 10) ∷ out) in
    if ltb n 10 then (b'0' + n) ∷ out else more

-- The magnitude of an `int` has at most ten digits.
unfoldable pub print_int : ℤ → List ℕ
unfolding emit_digits
print_int (pos n) = emit_digits 10 n []
print_int (negsuc n) = b'-' ∷ emit_digits 10 (n + 1) []

abbrev pub is_space : ℕ → Bool
is_space c = c == b' ' || (leb 9 c && leb c 13)

abbrev pub is_digit : ℕ → Bool
is_digit c = leb b'0' c && leb c b'9'

unfoldable pub skip_space : List ℕ → List ℕ
skip_space [] = []
skip_space (c ∷ s) = if is_space c then skip_space s else c ∷ s

-- The value of the digits at the front, behind those that make up `n`.
unfoldable pub read_digits : List ℕ → ℕ → ℕ
read_digits [] n = n
read_digits (c ∷ s) n =
    let more = read_digits s (n * 10 + (c - b'0')) in if is_digit c then more else n

-- Out of range the nearest `int` is stored.
abbrev pub clamp_pos : ℕ → ℤ
clamp_pos n = if ltb n (2 ^ 31) then pos n else pos (2 ^ 31 - 1)

abbrev pub clamp_neg : ℕ → ℤ
clamp_neg n =
    if n == 0 then pos 0 else if leb n (2 ^ 31) then negsuc (n - 1) else negsuc (2 ^ 31 - 1)

unfoldable pub read_int : List ℕ → Option ℤ
unfolding read_digits
read_int [] = none
read_int (c ∷ s) =
    if c == b'-'
    then some (clamp_neg (read_digits s 0))
    else some (clamp_pos (if c == b'+' then read_digits s 0 else read_digits (c ∷ s) 0))

-- `operator >>` to an `int`. `none`: it stores nothing, since only white space is there to read.
unfoldable pub extract_int : List ℕ → Option ℤ
unfolding skip_space read_int
extract_int s = read_int (skip_space s)

module _ {T : Type 0} where
  -- `insert` is `operator <<` of a `T` to an empty stream.
  unfoldable pub number_to_string : (T → List ℕ) → T → List ℕ
  number_to_string insert number = [] ++ insert number

  -- `res` is not initialised: `none` is its indeterminate value, where `ss >> res` stores nothing.
  unfoldable pub string_to_number : (List ℕ → Option T) → List ℕ → Option T
  string_to_number extract s = extract s
