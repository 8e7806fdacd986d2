-- ===== src/Variant.antt =====
-- src/Variant.h, src/Variant.cpp: the values of a Variant, its constructors, accessors and
-- conversions. A std::string is the list of its bytes, a double its 64 bits.
pub mod Keys
pub mod Containers
pub mod Assignments
pub mod MapView
pub mod Text
pub mod Convert
pub mod Memory
mod Tests
use ucxx.Base.{
  ℕ, zero, List, [], ◌∷◌, ◌++◌, Option, none, some, Bool, true, false, not, ◌==◌, String, codes,
  if◌then◌else◌,
}
use ucxx.Base.Int.{ℤ, pos, negsuc}
use ucxx.StringUtils.Number.{print_int, extract_int, number_to_string, string_to_number}
use Keys.{Key, text_eq}

-- enum Variant::Type
pub data Kind : Type 0 where
  invalid null boolean integer real string list map max_types : Kind

-- The type tag with the member of the union that it selects. `max_types` is a Variant made by
-- Variant(MaxTypes), which no function treats as one of the eight types.
mutual
  pub data Variant : Type 0 where
    invalid : Variant
    null : Variant
    boolean : Bool → Variant
    integer : ℤ → Variant
    real : ℕ → Variant
    string : List ℕ → Variant
    list : VariantList → Variant
    map : VariantMap → Variant
    max_types : Variant

  pub data VariantList : Type 0 where
    nil : VariantList
    cons : Variant → VariantList → VariantList

  -- std::map<std::string, Variant>, in the order of its iterator.
  pub data VariantMap : Type 0 where
    end : VariantMap
    entry : Key → Variant → VariantMap → VariantMap

unfoldable pub kind : Variant → Kind
kind invalid = Kind.invalid
kind null = Kind.null
kind (boolean b) = Kind.boolean
kind (integer i) = Kind.integer
kind (real r) = Kind.real
kind (string s) = Kind.string
kind (list l) = Kind.list
kind (map m) = Kind.map
kind max_types = Kind.max_types

-- Variant(Type): `m_data.ptr = 0` and then initializeType().
unfoldable pub of_kind : Kind → Variant
of_kind Kind.invalid = invalid
of_kind Kind.null = null
of_kind Kind.boolean = boolean false
of_kind Kind.integer = integer (pos 0)
of_kind Kind.real = real 0
of_kind Kind.string = string []
of_kind Kind.list = list nil
of_kind Kind.map = map end
of_kind Kind.max_types = max_types

unfoldable pub is_valid : Variant → Bool
is_valid invalid = false
is_valid _ = true

unfoldable pub is_null : Variant → Bool
is_null null = true
is_null _ = false

-- string(), list() and map() read the pointer of the union whatever the type is: `none` is the
-- undefined behaviour on another type.
unfoldable pub as_string : Variant → Option (List ℕ)
as_string (string s) = some s
as_string _ = none

unfoldable pub as_list : Variant → Option VariantList
as_list (list l) = some l
as_list _ = none

unfoldable pub as_map : Variant → Option VariantMap
as_map (map m) = some m
as_map _ = none

-- What the language and its library do with a double: conversions from and to `int` (`none` is the
-- undefined behaviour of a value that no `int` holds), `operator <<` and `operator >>`.
pub record Double : Type 0 where
  pub of_int : ℤ → ℕ
  pub to_int : ℕ → Option ℤ
  pub insert : ℕ → List ℕ
  pub extract : List ℕ → Option ℕ

-- The bits of 1.0.
abbrev pub one_bits : ℕ
one_bits = 0x3ff0_0000_0000_0000

abbrev pub int_nonzero : ℤ → Bool
int_nonzero (pos n) = not (n == 0)
int_nonzero (negsuc n) = true

unfoldable pub to_boolean : Variant → Bool → Bool
unfolding text_eq
to_boolean (boolean b) def = b
to_boolean (integer i) def = int_nonzero i
to_boolean (string s) def = text_eq s (codes "true")
to_boolean _ def = def

module _ (d : Double) where
  unfoldable pub to_integer : Variant → ℤ → Option ℤ
  unfolding string_to_number
  to_integer (boolean b) def = some (if b then pos 1 else pos 0)
  to_integer (integer i) def = some i
  to_integer (real r) def = d.to_int r
  to_integer (string s) def = string_to_number extract_int s
  to_integer _ def = some def

  unfoldable pub to_real : Variant → ℕ → Option ℕ
  unfolding string_to_number
  to_real (boolean b) def = some (if b then one_bits else 0)
  to_real (integer i) def = some (d.of_int i)
  to_real (real r) def = some r
  to_real (string s) def = string_to_number d.extract s
  to_real _ def = some def

  -- The loops append to `res`; an element is printed with the default text "".
  unfoldable mutual
    pub to_string : Variant → List ℕ → List ℕ
    to_string invalid def = codes "invalid"
    to_string null def = codes "null"
    to_string (boolean b) def = if b then codes "true" else codes "false"
    to_string (integer i) def = number_to_string print_int i
    to_string (real r) def = number_to_string d.insert r
    to_string (string s) def = s
    to_string (list l) def = list_loop l (codes "[") true ++ codes "]"
    to_string (map m) def = map_loop m (codes "{") ++ codes "}"
    to_string max_types def = def

    pub list_loop : VariantList → List ℕ → Bool → List ℕ
    list_loop nil res first = res
    list_loop (cons v l) res first =
        list_loop l ((if first then res else res ++ codes ", ") ++ to_string v []) false

    pub map_loop : VariantMap → List ℕ → List ℕ
    map_loop end res = res
    map_loop (entry k v m) res =
        map_loop m ((((res ++ k) ++ codes ": ") ++ to_string v []) ++ separator m)

    pub separator : VariantMap → List ℕ
    separator end = []
    separator (entry k v m) = codes ", "
