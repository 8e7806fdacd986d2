-- ===== src/Serializer/Encode.antt =====
-- What src/ByteArraySerializer.cpp writes for a value, as a function of the value alone.
use ucxx.Base.{◌%◌, ◌^◌, List, [], ◌∷◌, ◌++◌, length, take, ℕ}
use ucxx.Base.Words.{le_bytes}
use ucxx.Serializer.Raw.{raw_bool, raw_int, raw_double}
use ucxx.Serializer.Push.{list_size, map_size}
use ucxx.Variant.{
  Variant, VariantList, VariantMap, null, boolean, integer, real, string, list, map, nil, cons, end,
  entry,
}

abbrev pub word32 : ℕ → List ℕ
word32 n = le_bytes 4 (n % 2 ^ 32)

abbrev pub encode_text : List ℕ → List ℕ
encode_text s = b'S' ∷ (word32 (length s) ++ take (length s % 2 ^ 32) s)

unfoldable mutual
  pub encode : Variant → List ℕ
  encode null = b'N' ∷ []
  encode (boolean b) = b'B' ∷ raw_bool.encode b
  encode (integer i) = b'I' ∷ raw_int.encode i
  encode (real r) = b'R' ∷ raw_double.encode r
  encode (string s) = encode_text s
  encode (list l) = b'L' ∷ (word32 (list_size l) ++ encode_items l)
  encode (map m) = b'M' ∷ (word32 (map_size m) ++ encode_entries m)
  encode _ = b'X' ∷ []

  pub encode_items : VariantList → List ℕ
  encode_items nil = []
  encode_items (cons v l) = encode v ++ encode_items l

  pub encode_entries : VariantMap → List ℕ
  encode_entries end = []
  encode_entries (entry k v m) = encode_text k ++ (encode v ++ encode_entries m)
