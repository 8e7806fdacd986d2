-- ===== src/Serializer/Tests.antt =====
-- Runs of src/ByteArraySerializer.cpp, and its theorems at concrete values.
use ucxx.Base.{
  ◌↔◌, false, get_elem?, ℕ, arith, List, ◌++◌, ◌≡◌, refl, [], ◌∷◌, none, some, true, codes,
}
use ucxx.Base.Int.{negsuc}
use ucxx.Base.Words.{le_bytes, of_le_bytes}
use ucxx.ByteArray
use ucxx.Serializer.State.{available, rejected, init_with, fault, no_value, Serializer, ok}
use ucxx.Serializer.Append.{appended, push_value-appended}
use ucxx.Serializer.Encode.{encode}
use ucxx.Serializer.Storable.{IsStorable}
use ucxx.Serializer.Reads.{reader}
use ucxx.Serializer.Pops.{Pops}
use ucxx.Serializer.Prefix.{pop_value-truncated}
use ucxx.Serializer.Typed.{pop_value-kind}
use ucxx.Serializer.RoundTrip.{pop_value-push_value, push_all}
use ucxx.Serializer.Push.{
  push_value, list_size, map_size, push_invalid, push_null, push_boolean, push_integer, push_real,
  push_string, push_header,
}
use ucxx.Serializer.Pop.{
  pop_value, pop_nested, pop_typed, pop_list, pop_map, pop_items, pop_entries, pop_string, pop_text,
  load_text, pop_boolean, pop_integer, pop_real,
}
use ucxx.Serializer.Raw.{pop_raw_value, load_raw_value, push_raw_value}
use ucxx.Serializer.Signature.{
  push_type_signature, type_signature, pop_type_signature, load_type_signature, signature_type,
}
use ucxx.Serializer.Interface.{Call, push, pop, run, run_queue, Fits}
use ucxx.Serializer.Implementation.{byte_array_serializer, run-queue}
use ucxx.Serializer.Canonical.{push_value-SameLast}
use ucxx.Variant.Assignments.{Assignments, assign_all, SameLast}
use ucxx.Variant.Containers.{push_back, map_set}
use ucxx.Variant.Keys.{compare_keys}
use ucxx.Variant.{
  kind, of_kind, Variant, boolean, integer, string, list, map, nil, cons, end, entry,
}

-- What a run computes with.
running : ℕ
unfolding push_value push_invalid push_null push_boolean push_integer push_real push_string
    push_header push_raw_value push_type_signature type_signature list_size map_size le_bytes
    ByteArray.append_byte ByteArray.append_buffer ByteArray.const_data ByteArray.size pop_value
    pop_nested pop_typed pop_list pop_map pop_items pop_entries pop_string pop_text load_text
    pop_boolean pop_integer pop_real pop_raw_value load_raw_value pop_type_signature
    load_type_signature signature_type available of_le_bytes push_back map_set compare_keys of_kind
running = 0

abbrev sample : Variant
sample = map (
    entry (codes "a") (integer (negsuc 1))
      (entry (codes "b") (list (cons (boolean true) (cons (string (codes "hi")) nil))) end))

abbrev fresh : Serializer
fresh = record { byte_array = ByteArray.empty; index = 0 }

push_integer_runs :
    push_value (integer (negsuc 1)) fresh
    ≡ some (record fresh { byte_array = record { bytes = b'I' ∷ 0xfe ∷ 0xff ∷ 0xff ∷ 0xff ∷ [] } })
unfolding running
push_integer_runs = refl

push_sample : Serializer
unfolding running
push_sample = elim (push_value sample fresh) [ none ↦ fresh | some s ↦ s ]

pop_sample : pop_value push_sample ≡ ok sample (record push_sample { index = 36 })
unfolding push_sample running
pop_sample = refl

-- A truncated int: the signature is consumed all the same. An unknown signature is not.
rejections :
    (pop_value (reader (b'I' ∷ 1 ∷ 2 ∷ []) 0) ≡ rejected (reader (b'I' ∷ 1 ∷ 2 ∷ []) 1))
    × (pop_value (reader (b'Q' ∷ []) 0) ≡ rejected (reader (b'Q' ∷ []) 0))
    × (pop_value (reader (b'B' ∷ 2 ∷ []) 0) ≡ fault no_value)
unfolding running
rejections = (refl, refl, refl)

sample-IsStorable : IsStorable sample
unfolding IsStorable map_size list_size compare_keys
sample-IsStorable = (
  omega arith,
  (omega arith, refl, (refl, tt), (omega arith, (omega arith, (tt, (omega arith, tt))), tt, tt)),
)

push_value-appended_example : push_value sample fresh ≡ some (appended fresh (encode sample))
push_value-appended_example = push_value-appended sample fresh

pushed : push_value sample fresh ≡ some push_sample
unfolding push_sample running
pushed = refl

pop_value-push_value_example :
    pop_value (reader (push_sample.byte_array.bytes ++ b'N' ∷ []) 0)
    ≡ ok sample (reader (push_sample.byte_array.bytes ++ b'N' ∷ []) 36)
unfolding push_sample running
pop_value-push_value_example =
    pop_value-push_value sample fresh push_sample (b'N' ∷ []) sample-IsStorable refl (omega arith)

abbrev two_values : List Variant
two_values = sample ∷ boolean true ∷ []

abbrev noise : ByteArray.ByteArray
noise = record { bytes = 7 ∷ 8 ∷ [] }

abbrev pushed_two : Serializer
pushed_two = elim (push_all two_values (init_with noise)) [ none ↦ fresh | some t ↦ t ]

abbrev cut_short : List ℕ
cut_short = b'L' ∷ 2 ∷ 0 ∷ 0 ∷ 0 ∷ b'B' ∷ 1 ∷ []

pop_value-truncated_example :
    (j : ℕ) × (pop_value (reader cut_short 0) ≡ rejected (reader cut_short j))
unfolding running encode IsStorable
pop_value-truncated_example =
    pop_value-truncated (list (cons (boolean true) (cons (boolean true) nil))) cut_short
      (b'B' ∷ 1 ∷ []) (omega arith, (tt, (tt, tt))) (omega arith) refl (omega arith) (omega arith)

pop_value-kind_example :
    (c : ℕ) × (get_elem? push_sample.byte_array.bytes 0 ≡ some c)
    × (type_signature (kind sample) ≡ some c)
unfolding push_sample running
pop_value-kind_example =
    pop_value-kind push_sample (record push_sample { index = 36 }) sample pop_sample

abbrev a_then_b : Assignments
a_then_b = (codes "a", boolean true) ∷ (codes "b", boolean false) ∷ []

abbrev b_twice : Assignments
b_twice = (codes "b", boolean true) ∷ (codes "a", boolean true) ∷ (codes "b", boolean false) ∷ []

push_value-SameLast_example :
    (push_value (map (assign_all end a_then_b)) fresh
      ≡ push_value (map (assign_all end b_twice)) fresh)
    ↔ SameLast a_then_b b_twice
unfolding running IsStorable encode assign_all
push_value-SameLast_example =
    push_value-SameLast a_then_b b_twice fresh (omega arith) (omega arith) (omega arith)
      (omega arith) (omega arith)

abbrev queue_calls : List Call
queue_calls =
    push (boolean true) ∷ push (integer (negsuc 4)) ∷ pop ∷ push (list nil) ∷ pop ∷ pop ∷ pop ∷ []

queue_runs :
    run byte_array_serializer fresh queue_calls
    ≡ some (boolean true) ∷ some (integer (negsuc 4)) ∷ some (list nil) ∷ none ∷ []
unfolding running run
queue_runs = refl

run-queue_example :
    run byte_array_serializer (init_with ByteArray.empty) queue_calls ≡ run_queue [] queue_calls
unfolding running Fits IsStorable encode
run-queue_example =
    run-queue queue_calls
      (tt, omega arith, (refl, omega arith, ((omega arith, tt), omega arith, tt)))
