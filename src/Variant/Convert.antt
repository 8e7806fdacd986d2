-- ===== src/Variant/Convert.antt =====
-- src/Variant.cpp: conversions one after the other.
use ucxx.Base.{◌≡◌, refl, Bool, true, false, List, ℕ, some}
use ucxx.Base.Int.{ℤ, fits_int}
use ucxx.StringUtils.Decimal.{string_to_number-number_to_string}
use ucxx.Variant.{Double, boolean, integer, string, to_boolean, to_integer, to_string}

-- The text of a Boolean or of an int, taken as a string Variant, is converted back to that Boolean
-- or to that int, whatever the default values are.
pub to_string_read_back :
    (d : Double) (b c : Bool) (i j : ℤ) (def : List ℕ)
    → fits_int i ≡ true
    → (to_boolean (string (to_string d (boolean b) def)) c ≡ b)
      × (to_integer d (string (to_string d (integer i) def)) j ≡ some i)
unfolding to_boolean to_integer to_string
to_string_read_back d b c i j def h = (boolean_back b, string_to_number-number_to_string i h)
  where
    boolean_back : (b : Bool) → to_boolean (string (to_string d (boolean b) def)) c ≡ b
    boolean_back true = refl
    boolean_back false = refl
