-- ===== src/Serializer/Push.antt =====
-- src/ByteArraySerializer.cpp: pushValue and the functions below it.
use ucxx.Base.{ℕ, suc, ◌%◌, ◌^◌, List, Option, none, some, Bool, length}
use ucxx.Base.Int.{ℤ}
use ucxx.ByteArray
use ucxx.Serializer.State.{Serializer}
use ucxx.Serializer.Raw.{Raw, raw_bool, raw_int, raw_unsigned, raw_double, push_raw_value}
use ucxx.Serializer.Signature.{push_type_signature}
use ucxx.Variant.{
  Kind, Variant, VariantList, VariantMap, null, boolean, integer, real, string, list, map, nil,
  cons, end, entry,
}

-- `none` is undefined behaviour: a read outside a buffer.
infixl 5 ◌>>=◌
abbrev pub ◌>>=◌ : {A B : Type 0} → Option A → (A → Option B) → Option B
none >>= f = none
some a >>= f = f a

abbrev pub with_bytes : Serializer → Option ByteArray.ByteArray → Option Serializer
with_bytes s none = none
with_bytes s (some ba) = some (record s { byte_array = ba })

abbrev pub push_raw : {T : Type 0} ⦃r : Raw T⦄ → T → Serializer → Option Serializer
push_raw value s = with_bytes s (push_raw_value value s.byte_array)

unfoldable pub push_invalid : Serializer → Option Serializer
push_invalid s = push_type_signature Kind.invalid s

unfoldable pub push_null : Serializer → Option Serializer
push_null s = push_type_signature Kind.null s

unfoldable pub push_boolean : Bool → Serializer → Option Serializer
push_boolean value s = do s ← push_type_signature Kind.boolean s; push_raw value s

unfoldable pub push_integer : ℤ → Serializer → Option Serializer
push_integer value s = do s ← push_type_signature Kind.integer s; push_raw value s

unfoldable pub push_real : ℕ → Serializer → Option Serializer
push_real value s = do s ← push_type_signature Kind.real s; push_raw ⦃r = raw_double⦄ value s

-- The length, a size_t, is cut to an unsigned, and so is what is written of the text.
unfoldable pub push_string : List ℕ → Serializer → Option Serializer
push_string value s = do
  let n = length value % 2 ^ 32
  s ← push_type_signature Kind.string s
  s ← push_raw ⦃r = raw_unsigned⦄ n s
  with_bytes s (ByteArray.append_buffer s.byte_array value n)

unfoldable pub list_size : VariantList → ℕ
list_size nil = 0
list_size (cons v l) = suc (list_size l)

unfoldable pub map_size : VariantMap → ℕ
map_size end = 0
map_size (entry k v m) = suc (map_size m)

-- What pushList and pushMap write before their loops: the signature, and the size as an unsigned.
unfoldable pub push_header : Kind → ℕ → Serializer → Option Serializer
push_header type size s = do
  s ← push_type_signature type s
  push_raw ⦃r = raw_unsigned⦄ (size % 2 ^ 32) s

-- toBoolean(), toInteger() and toReal() of a Variant of their own type are its value.
unfoldable mutual
  pub push_value : Variant → Serializer → Option Serializer
  push_value null s = push_null s
  push_value (boolean b) s = push_boolean b s
  push_value (integer i) s = push_integer i s
  push_value (real r) s = push_real r s
  push_value (string t) s = push_string t s
  push_value (list l) s = push_header Kind.list (list_size l) s >>= push_items l
  push_value (map m) s = push_header Kind.map (map_size m) s >>= push_entries m
  push_value _ s = push_invalid s

  pub push_items : VariantList → Serializer → Option Serializer
  push_items nil s = some s
  push_items (cons v l) s = push_value v s >>= push_items l

  pub push_entries : VariantMap → Serializer → Option Serializer
  push_entries end s = some s
  push_entries (entry k v m) s = push_string k s >>= push_value v >>= push_entries m
