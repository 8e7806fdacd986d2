-- ===== src/StringUtils/Decimal.antt =====
-- src/StringUtils.h: an `int` printed by numberToString is read back by stringToNumber.
use native.Mathlib.Nat.{pow-suc}
use ucxx.Base.{
  ℕ, zero, suc, ◌+◌, ◌/◌, ◌%◌, ◌^◌, ◌≤◌, ◌<◌, ◌≡◌, refl, ◌∙◌, inl, inr, List, [], ◌∷◌, none, some,
  true, arith, ltb, All, Bool-cases,
}
use ucxx.Base.Int.{ℤ, pos, negsuc, fits_int}
use ucxx.StringUtils.Number.{
  emit_digits, print_int, is_space, read_digits, clamp_pos, clamp_neg, extract_int,
  number_to_string, string_to_number,
}

read_last :
    (n : ℕ) (out : List ℕ) → read_digits ((b'0' + n % 10) ∷ out) (n / 10) ≡ read_digits out n
unfolding read_digits
read_last n out = ground arith

read_first : (n : ℕ) (out : List ℕ) → n < 10 → read_digits ((b'0' + n) ∷ out) 0 ≡ read_digits out n
unfolding read_digits
read_first n out h = ground arith

-- The digits of a number below 10 ^ fuel read as that number.
read_digits-emit_digits :
    (fuel n : ℕ) (out : List ℕ)
    → n < 10 ^ suc fuel
    → read_digits (emit_digits (suc fuel) n out) 0 ≡ read_digits out n
unfolding emit_digits
read_digits-emit_digits zero n out h = ground (arith, read_first n out)
read_digits-emit_digits (suc fuel) n out h = ground (
  arith,
  read_first n out,
  read_last n out,
  read_digits-emit_digits fuel (n / 10) ((b'0' + n % 10) ∷ out)
      (omega (arith, pow-suc 10 (suc fuel))),
)

-- A text that begins with a digit.
abbrev StartsDigit : List ℕ → Type 0
StartsDigit [] = ⊥
StartsDigit (c ∷ s) = (b'0' ≤ c) × (c ≤ b'9')

emit_digits-StartsDigit :
    (fuel n : ℕ) (out : List ℕ) → n < 10 ^ suc fuel → StartsDigit (emit_digits (suc fuel) n out)
unfolding emit_digits
emit_digits-StartsDigit zero n out h = ground arith
emit_digits-StartsDigit (suc fuel) n out h = elim (Bool-cases (ltb n 10)) [
  | inl small ↦ ground arith
  | inr big ↦
      rw big (emit_digits-StartsDigit fuel (n / 10) _ (omega (arith, pow-suc 10 (suc fuel))))
]

extract_digits : (s : List ℕ) → StartsDigit s → extract_int s ≡ some (clamp_pos (read_digits s 0))
unfolding extract_int
extract_digits [] h = absurd h
extract_digits (c ∷ s) h = ground arith

extract_minus : (s : List ℕ) → extract_int (b'-' ∷ s) ≡ some (clamp_neg (read_digits s 0))
unfolding extract_int
extract_minus s = ground arith

read_printed : (n : ℕ) → n < 10 ^ 10 → read_digits (emit_digits 10 n []) 0 ≡ n
read_printed n h = read_digits-emit_digits 9 n [] h ∙ (unfold read_digits in refl)

extract_int-print_int : (z : ℤ) → fits_int z ≡ true → extract_int (print_int z) ≡ some z
unfolding print_int
extract_int-print_int (pos n) h =
    let small : n < 10 ^ 10 = ground arith in
    extract_digits _ (emit_digits-StartsDigit 9 n [] small)
    ∙ rw (read_printed n small) (ground arith)
extract_int-print_int (negsuc n) h =
    extract_minus _ ∙ rw (read_printed (n + 1) (ground arith)) (ground arith)

pub string_to_number-number_to_string :
    (z : ℤ)
    → fits_int z ≡ true
    → string_to_number extract_int (number_to_string print_int z) ≡ some z
unfolding string_to_number number_to_string
string_to_number-number_to_string z h = extract_int-print_int z h

-- Where the text holds white space only, stringToNumber<int> returns an indeterminate value.
pub string_to_number-space :
    (s : List ℕ) → All (λ c. is_space c ≡ true) s → string_to_number extract_int s ≡ none
unfolding string_to_number extract_int
string_to_number-space [] h = refl
string_to_number-space (c ∷ s) h = rw h.0 (string_to_number-space s h.1)
