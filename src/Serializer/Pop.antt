-- ===== src/Serializer/Pop.antt =====
-- src/ByteArraySerializer.cpp: popValue and the functions below it.
use ucxx.Base.{ℕ, zero, suc, List, none, some, Bool, ltb, leb, if◌then◌else◌}
use ucxx.Base.Int.{ℤ}
use ucxx.ByteArray
use ucxx.ByteArray.{read_buffer}
use ucxx.Serializer.State.{
  Pop, rejected, out_of_fuel, fault, ok, out_of_bounds, pure, reject, ◌>>=◌, and_then, available,
  advance,
}
use ucxx.Serializer.Raw.{raw_bool, raw_int, raw_unsigned, raw_double, pop_raw_value}
use ucxx.Serializer.Signature.{pop_type_signature}
use ucxx.Variant.{
  Kind, Variant, VariantList, VariantMap, boolean, integer, real, string, list, map, nil, end,
  of_kind,
}
use ucxx.Variant.Keys.{Key}
use ucxx.Variant.Containers.{push_back, map_set}

unfoldable pub pop_boolean : Pop Bool
pop_boolean = pop_raw_value

unfoldable pub pop_integer : Pop ℤ
pop_integer = pop_raw_value

unfoldable pub pop_real : Pop ℕ
pop_real = pop_raw_value ⦃r = raw_double⦄

-- The characters of a text whose length has been read.
unfoldable pub load_text : ℕ → Pop (List ℕ)
load_text length s = elim (read_buffer (ByteArray.const_data s.byte_array s.index) length) [
  | none ↦ fault out_of_bounds
  | some text ↦ ok text (advance s length)
]

unfoldable pub pop_text : ℕ → Pop (List ℕ)
pop_text length s = if ltb (available s) length then rejected s else load_text length s

unfoldable pub pop_string : Pop (List ℕ)
pop_string = do length ← pop_raw_value ⦃r = raw_unsigned⦄; pop_text length

abbrev pub key_of : Variant → Pop Key
key_of (string k) = pure k
key_of _ = reject

-- The loops of popList and popMap, over the rounds left; `pop` is the recursive call of popValue.
module _ (pop : Pop Variant) where
  unfoldable pub pop_items : ℕ → VariantList → Pop VariantList
  pop_items zero found = pure found
  pop_items (suc n) found = do v ← pop; pop_items n (push_back found v)

  unfoldable pub pop_entries : ℕ → VariantMap → Pop VariantMap
  pop_entries zero found = pure found
  pop_entries (suc n) found = do
    key ← pop
    k ← key_of key
    v ← pop
    pop_entries n (map_set found k v)

  unfoldable pub pop_list : Pop VariantList
  pop_list = do length ← pop_raw_value ⦃r = raw_unsigned⦄; pop_items length nil

  unfoldable pub pop_map : Pop VariantMap
  pop_map = do length ← pop_raw_value ⦃r = raw_unsigned⦄; pop_entries length end

  -- The switch of popValue.
  unfoldable pub pop_typed : Kind → Pop Variant
  pop_typed Kind.invalid = pure (of_kind Kind.invalid)
  pop_typed Kind.null = pure (of_kind Kind.null)
  pop_typed Kind.boolean = do v ← pop_boolean; pure (boolean v)
  pop_typed Kind.integer = do v ← pop_integer; pure (integer v)
  pop_typed Kind.real = do v ← pop_real; pure (real v)
  pop_typed Kind.string = do v ← pop_string; pure (string v)
  pop_typed Kind.list = do v ← pop_list; pure (list v)
  pop_typed Kind.map = do v ← pop_map; pure (map v)
  pop_typed Kind.max_types = reject

-- A level of nesting costs a unit of fuel.
unfoldable pub pop_nested : ℕ → Pop Variant
pop_nested zero s = out_of_fuel
pop_nested (suc fuel) s =
    let value = and_then (pop_type_signature s) (pop_typed (pop_nested fuel)) in
    if leb (available s) 0 then rejected s else value

-- popValue. Each level of nesting reads at least one byte.
unfoldable pub pop_value : Pop Variant
pop_value s = pop_nested (suc (available s)) s
