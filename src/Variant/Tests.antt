-- ===== src/Variant/Tests.antt =====
-- Runs of src/Variant.cpp, and the theorems at concrete values.
use mathlib.Core.Quot
use ucxx.Base.{◌∷◌, ◌≡◌, ◌++◌, refl, [], some, true, false, codes}
use ucxx.Base.Int.{pos, negsuc}
use ucxx.StringUtils.Number.{emit_digits, print_int, number_to_string}
use ucxx.Variant.{
  Kind, Double, VariantList, VariantMap, null, boolean, integer, string, list, map, nil, cons, end,
  entry, of_kind, to_boolean, to_integer, to_string,
}
use ucxx.Variant.Assignments.{Assignments, assign_all}
use ucxx.Variant.Containers.{map_set}
use ucxx.Variant.Keys.{text_eq, compare_keys}
use ucxx.Variant.MapView.{to_map}
use ucxx.Variant.Text.{comma_separated, element_texts, entry_texts, to_string_containers}

-- Doubles of which only 0.0 is converted.
abbrev zero_only : Double
zero_only = record {
  of_int = λ _. 0;
  to_int = λ _. some (pos 0);
  insert = λ _. codes "0";
  extract = λ _. some 0;
}

abbrev items : VariantList
items = cons (boolean true) (cons (integer (negsuc 4)) (cons null nil))

abbrev fields : VariantMap
fields = entry (codes "k") (list items) (entry (codes "m") (string (codes "v")) end)

texts :
    (to_string zero_only (list items) [] ≡ codes "[true, -5, null]")
    × (to_string zero_only (map fields) [] ≡ codes "{k: [true, -5, null], m: v}")
    × (to_string zero_only (of_kind Kind.max_types) (codes "?") ≡ codes "?")
    × (to_boolean (string (codes "yes")) true ≡ false)
    × (to_integer zero_only (list items) (pos 7) ≡ some (pos 7))
unfolding to_string number_to_string print_int emit_digits of_kind to_boolean text_eq to_integer
texts = (refl, refl, refl, refl, refl)

to_string_containers_example :
    (to_string zero_only (list items) []
      ≡ codes "[" ++ (comma_separated (element_texts zero_only items) ++ codes "]"))
    × (to_string zero_only (map fields) []
        ≡ codes "{" ++ (comma_separated (entry_texts zero_only fields) ++ codes "}"))
to_string_containers_example = to_string_containers zero_only items fields []

-- "b" is given twice.
abbrev filled : Assignments
filled = (codes "b", null) ∷ (codes "a", boolean true) ∷ (codes "b", boolean false) ∷ []

filled_map :
    to_map (Quot.mk filled)
    ≡ entry (codes "a") (boolean true) (entry (codes "b") (boolean false) end)
unfolding to_map assign_all map_set compare_keys
filled_map = refl
