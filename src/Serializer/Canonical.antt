-- ===== src/Serializer/Canonical.antt =====
-- What src/ByteArraySerializer.cpp writes for a map, and the order in which the map was filled.
use mathlib.Core.List.{append_cancel_left}
use ucxx.Base.{some, ◌+◌, ◌<◌, ◌≤◌, ◌^◌, ◌≡◌, ◌↔◌, ap, [], ◌∷◌, ◌++◌, arith, length, All}
use ucxx.Serializer.Append.{appended, push_value-appended}
use ucxx.Serializer.Encode.{encode}
use ucxx.Serializer.Push.{push_value, map_size}
use ucxx.Serializer.RoundTrip.{encode-injective}
use ucxx.Serializer.State.{Serializer}
use ucxx.Serializer.Storable.{
  IsStorable, AreEntriesStorable, map_size-map_set, map_set-AreEntriesStorable,
}
use ucxx.Variant.{Variant, VariantMap, map, end}
use ucxx.Variant.Keys.{Key}
use ucxx.Variant.Containers.{map_set}
use ucxx.Variant.Assignments.{Assignments, assign_all, SameLast, assign_all-SameLast}

-- Assignments of values that can be stored, under keys that can.
abbrev pub IsStorableEntry : Key × Variant → Type 0
IsStorableEntry (k, v) = (length k < 2 ^ 32) × IsStorable v

assign_all-AreEntriesStorable :
    (m : VariantMap) (es : Assignments)
    → AreEntriesStorable m
    → All IsStorableEntry es
    → AreEntriesStorable (assign_all m es)
unfolding assign_all
assign_all-AreEntriesStorable m [] h hs = h
assign_all-AreEntriesStorable m ((k, v) ∷ es) h hs =
    assign_all-AreEntriesStorable (map_set m k v) es
      (map_set-AreEntriesStorable m k v h hs.0.0 hs.0.1) hs.1

map_size-assign_all :
    (m : VariantMap) (es : Assignments) → map_size (assign_all m es) ≤ length es + map_size m
unfolding assign_all
map_size-assign_all m [] = omega arith
map_size-assign_all m ((k, v) ∷ es) =
    omega (arith, map_size-assign_all (map_set m k v) es, map_size-map_set m k v)

filled-IsStorable :
    (es : Assignments)
    → All IsStorableEntry es
    → length es < 2 ^ 32
    → IsStorable (map (assign_all end es))
unfolding IsStorable AreEntriesStorable map_size
filled-IsStorable es h small =
    (omega (arith, map_size-assign_all end es), assign_all-AreEntriesStorable end es tt h)

written_same :
    (v w : Variant) (s : Serializer) → push_value v s ≡ push_value w s → encode v ≡ encode w
written_same v w s same =
    append_cancel_left s.byte_array.bytes (encode v) (encode w)
      (bytes_same (cc (push_value-appended v s, push_value-appended w s, same)))
  where
    bytes_same :
        some (appended s (encode v)) ≡ some (appended s (encode w))
        → s.byte_array.bytes ++ encode v ≡ s.byte_array.bytes ++ encode w
    bytes_same e = cc e

-- Two maps are filled by assignments of values that can be stored. pushValue writes the same bytes
-- for them exactly when each key was given the same value last, or none, in both; in what order
-- makes no difference. The maps have fewer than 2^32 assignments, and the encoding of the first is
-- shorter than 2^32 bytes.
pub push_value-SameLast :
    (es fs : Assignments) (s : Serializer)
    → All IsStorableEntry es
    → All IsStorableEntry fs
    → length es < 2 ^ 32
    → length fs < 2 ^ 32
    → length (encode (map (assign_all end es))) < 2 ^ 32
    → (push_value (map (assign_all end es)) s ≡ push_value (map (assign_all end fs)) s)
      ↔ SameLast es fs
push_value-SameLast es fs s hes hfs few few' small = (
  λ same.
      let written = written_same (map (assign_all end es)) (map (assign_all end fs)) s same in
      let values =
        encode-injective _ _ (filled-IsStorable es hes few) (filled-IsStorable fs hfs few') small
          written in
      (assign_all-SameLast es fs).0 (cc values),
  λ same. ap (λ (m : VariantMap). push_value (map m) s) ((assign_all-SameLast es fs).1 same),
)
