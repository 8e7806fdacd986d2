-- ===== src/Serializer/Append.antt =====
-- src/ByteArraySerializer.cpp: pushValue only appends, and it appends the encoding of the value.
use ucxx.Base.{
  ◌%◌, ◌^◌, ◌≡◌, refl, sym, ap, ◌∙◌, Bool, List, [], ◌∷◌, ◌++◌, Option, some, append_assoc, arith,
  length, take, append-nil, ℕ, ◌≤◌,
}
use ucxx.Base.Int.{ℤ}
use ucxx.ByteArray
use ucxx.ByteArray.Laws.{append_buffer-all}
use ucxx.Serializer.State.{Serializer}
use ucxx.Serializer.Raw.{Raw, raw_bool, raw_int, raw_unsigned, raw_double, push_raw_value}
use ucxx.Serializer.Signature.{push_type_signature, type_signature}
use ucxx.Serializer.Push.{
  with_bytes, push_raw, ◌>>=◌, push_invalid, push_null, push_boolean, push_integer, push_real,
  push_string, push_header, push_value, push_items, push_entries, list_size, map_size,
}
use ucxx.Serializer.Encode.{word32, encode_text, encode, encode_items, encode_entries}
use ucxx.Variant.{
  Kind, Variant, VariantList, VariantMap, null, boolean, integer, real, string, list, map, nil,
  cons, end, entry,
}

-- The serializer with bytes added to its array, and its read index as it was.
abbrev pub appended : Serializer → List ℕ → Serializer
appended s bs = record s { byte_array = record { bytes = s.byte_array.bytes ++ bs } }

pub appended_twice :
    (s : Serializer) (a b : List ℕ) → appended (appended s a) b ≡ appended s (a ++ b)
appended_twice s a b =
    ap (λ (x : List ℕ). record s { byte_array = record { bytes = x } })
      (append_assoc s.byte_array.bytes a b)

pub push_raw_value-encode :
    {T : Type 0} (r : Raw T) (v : T) (ba : ByteArray.ByteArray)
    → push_raw_value ⦃r = r⦄ v ba ≡ some (record { bytes = ba.bytes ++ r.encode v })
unfolding push_raw_value
push_raw_value-encode r v ba =
    ap (ByteArray.append_buffer ba (r.encode v)) (sym (r.length-encode v))
    ∙ append_buffer-all ba (r.encode v)

append_text :
    (ba : ByteArray.ByteArray) (s : List ℕ) (n : ℕ)
    → n ≤ length s
    → ByteArray.append_buffer ba s n ≡ some (record { bytes = ba.bytes ++ take n s })
unfolding ByteArray.append_buffer
append_text ba s n h = ground arith

push_raw-encode :
    {T : Type 0} (r : Raw T) (v : T) (s : Serializer)
    → push_raw ⦃r = r⦄ v s ≡ some (appended s (r.encode v))
push_raw-encode r v s = ap (with_bytes s) (push_raw_value-encode r v s.byte_array)

-- A signature, and then the bytes of one value.
tagged :
    {T : Type 0} (r : Raw T) (v : T) (s : Serializer) (c : ℕ)
    → push_raw ⦃r = r⦄ v (appended s (c ∷ [])) ≡ some (appended s (c ∷ r.encode v))
tagged r v s c =
    push_raw-encode r v (appended s (c ∷ [])) ∙ ap some (appended_twice s (c ∷ []) (r.encode v))

module _ (s : Serializer) where
  push_boolean-encode : (b : Bool) → push_boolean b s ≡ some (appended s (b'B' ∷ raw_bool.encode b))
  unfolding push_boolean push_type_signature type_signature ByteArray.append_byte
  push_boolean-encode b = tagged raw_bool b s b'B'

  push_integer-encode : (i : ℤ) → push_integer i s ≡ some (appended s (b'I' ∷ raw_int.encode i))
  unfolding push_integer push_type_signature type_signature ByteArray.append_byte
  push_integer-encode i = tagged raw_int i s b'I'

  push_real-encode : (r : ℕ) → push_real r s ≡ some (appended s (b'R' ∷ raw_double.encode r))
  unfolding push_real push_type_signature type_signature ByteArray.append_byte
  push_real-encode r = tagged raw_double r s b'R'

  push_list_header : (n : ℕ) → push_header Kind.list n s ≡ some (appended s (b'L' ∷ word32 n))
  unfolding push_header push_type_signature type_signature ByteArray.append_byte
  push_list_header n = tagged raw_unsigned (n % 2 ^ 32) s b'L'

  push_map_header : (n : ℕ) → push_header Kind.map n s ≡ some (appended s (b'M' ∷ word32 n))
  unfolding push_header push_type_signature type_signature ByteArray.append_byte
  push_map_header n = tagged raw_unsigned (n % 2 ^ 32) s b'M'

  push_string-encode : (t : List ℕ) → push_string t s ≡ some (appended s (encode_text t))
  unfolding push_string push_type_signature type_signature ByteArray.append_byte
  push_string-encode t = rw (tagged raw_unsigned (length t % 2 ^ 32) s b'S') (
      rw (append_text _ t (length t % 2 ^ 32) (omega arith))
        (ap some (appended_twice s (b'S' ∷ word32 (length t)) _)))

pub appended_nil : (s : Serializer) → some s ≡ some (appended s [])
appended_nil s =
    ap (λ (x : List ℕ). some (record s { byte_array = record { bytes = x } }))
      (sym (append-nil s.byte_array.bytes))

append-bind :
    (f : Serializer → Option Serializer) {m : Option Serializer} (s : Serializer) (a b : List ℕ)
    → m ≡ some (appended s a)
    → f (appended s a) ≡ some (appended (appended s a) b)
    → (m >>= f) ≡ some (appended s (a ++ b))
append-bind f s a b p q = ap (λ x. x >>= f) p ∙ q ∙ ap some (appended_twice s a b)

mutual
  unfolding push_value encode push_invalid push_null push_type_signature type_signature
      ByteArray.append_byte

  push_value-encode : (v : Variant) (s : Serializer) → push_value v s ≡ some (appended s (encode v))
  push_value-encode null s = refl
  push_value-encode (boolean b) s = push_boolean-encode s b
  push_value-encode (integer i) s = push_integer-encode s i
  push_value-encode (real r) s = push_real-encode s r
  push_value-encode (string t) s = push_string-encode s t
  push_value-encode (list l) s =
      append-bind (push_items l) s (b'L' ∷ word32 (list_size l)) (encode_items l)
        (push_list_header s (list_size l)) (push_items-encode l _)
  push_value-encode (map m) s =
      append-bind (push_entries m) s (b'M' ∷ word32 (map_size m)) (encode_entries m)
        (push_map_header s (map_size m)) (push_entries-encode m _)
  push_value-encode _ s = refl

  push_items-encode :
      (l : VariantList) (s : Serializer) → push_items l s ≡ some (appended s (encode_items l))
  push_items-encode nil s = appended_nil s
  push_items-encode (cons v l) s =
      append-bind (push_items l) s (encode v) (encode_items l) (push_value-encode v s)
        (push_items-encode l _)

  push_entries-encode :
      (m : VariantMap) (s : Serializer) → push_entries m s ≡ some (appended s (encode_entries m))
  push_entries-encode end s = appended_nil s
  push_entries-encode (entry k v m) s =
      append-bind (push_entries m) s (encode_text k ++ encode v) (encode_entries m)
        (append-bind (push_value v) s (encode_text k) (encode v) (push_string-encode s k)
          (push_value-encode v _))
        (push_entries-encode m _)
      ∙ ap (λ x. some (appended s x)) (append_assoc (encode_text k) (encode v) (encode_entries m))

-- Pushing a value of any kind succeeds, appends exactly the encoding of that value to the array,
-- and leaves the bytes that are there, and the read index, as they were.
pub push_value-appended :
    (v : Variant) (s : Serializer) → push_value v s ≡ some (appended s (encode v))
push_value-appended v s = push_value-encode v s
