-- ===== src/Serializer/Signature.antt =====
-- src/ByteArraySerializer.cpp: cTypeSignature, cSignatureToTypeMap, and the two functions over
-- them.
use ucxx.Base.{ℕ, Option, none, some, ltb, ◌==◌, if◌then◌else◌, get_elem?}
use ucxx.ByteArray
use ucxx.Serializer.State.{Serializer, ok, rejected, fault, out_of_bounds, Pop, available, advance}
use ucxx.Variant.{Kind}

-- cTypeSignature has MaxTypes elements: Type MaxTypes is outside.
unfoldable pub type_signature : Kind → Option ℕ
type_signature Kind.invalid = some b'X'
type_signature Kind.null = some b'N'
type_signature Kind.boolean = some b'B'
type_signature Kind.integer = some b'I'
type_signature Kind.real = some b'R'
type_signature Kind.string = some b'S'
type_signature Kind.list = some b'L'
type_signature Kind.map = some b'M'
type_signature Kind.max_types = none

-- cSignatureToTypeMap.find(c)
unfoldable pub signature_type : ℕ → Option Kind
signature_type c =
    if c == b'X'
    then some Kind.invalid
    else if c == b'N'
    then some Kind.null
    else if c == b'B'
    then some Kind.boolean
    else if c == b'I'
    then some Kind.integer
    else if c == b'R'
    then some Kind.real
    else if c == b'S'
    then some Kind.string
    else if c == b'L'
    then some Kind.list
    else if c == b'M'
    then some Kind.map
    else none

-- `none` is a read outside cTypeSignature.
unfoldable pub push_type_signature : Kind → Serializer → Option Serializer
push_type_signature type s = elim (type_signature type) [
  | none ↦ none
  | some c ↦ some (record s { byte_array = ByteArray.append_byte s.byte_array c })
]

unfoldable pub load_type_signature : Pop Kind
load_type_signature s = elim (get_elem? s.byte_array.bytes s.index) [
  | none ↦ fault out_of_bounds
  | some c ↦ elim (signature_type c) [ none ↦ rejected s | some type ↦ ok type (advance s 1) ]
]

-- The byte is consumed only if it is a signature.
unfoldable pub pop_type_signature : Pop Kind
pop_type_signature s = if ltb (available s) 1 then rejected s else load_type_signature s
