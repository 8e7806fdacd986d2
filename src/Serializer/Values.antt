-- ===== src/Serializer/Values.antt =====
-- src/ByteArraySerializer.cpp: popValue on the encoding of a value.
use ucxx.Base.{
  ℕ, zero, suc, ◌%◌, ◌<◌, ◌^◌, ◌≡◌, refl, sym, ap, subst, ◌∙◌, List, [], ◌∷◌, ◌++◌, some, arith,
  length, take, length-append,
}
use ucxx.ByteArray.Laws.{take-all}
use ucxx.Serializer.State.{Pop, pure, available, ◌>>=◌, and_then}
use ucxx.Serializer.Raw.{raw_bool, raw_int, raw_unsigned, raw_double, pop_raw_value}
use ucxx.Serializer.Signature.{type_signature, pop_type_signature}
use ucxx.Serializer.Push.{list_size, map_size}
use ucxx.Serializer.Pop.{
  pop_boolean, pop_integer, pop_real, pop_text, pop_string, pop_items, pop_entries, pop_list,
  pop_map, pop_typed, pop_nested, pop_value,
}
use ucxx.Serializer.Encode.{word32, encode_text, encode, encode_items, encode_entries}
use ucxx.Serializer.Storable.{
  IsStorable, AreStorable, AreEntriesStorable, depth, depth_items, depth_entries, depth-encode,
}
use ucxx.Serializer.Reads.{
  at, Reads, Reads-bind, Reads-pure, available-at, pop_raw-Reads, pop_text-Reads,
  pop_type_signature-Reads,
}
use ucxx.Variant.{
  Kind, Variant, VariantList, VariantMap, invalid, null, boolean, integer, real, string, list, map,
  max_types, nil, cons, end, entry, of_kind,
}
use ucxx.Variant.Containers.{
  push_back, map_set, join_lists, join_lists-nil, join_lists-push_back, join_maps, join_maps-end,
  Before, map_set-last, Before-map_set,
}

-- A size below 2^32 is written whole.
word32-Reads : (n : ℕ) → n < 2 ^ 32 → Reads (pop_raw_value ⦃r = raw_unsigned⦄) (word32 n) n
word32-Reads n h =
    subst (λ (k : ℕ). Reads (pop_raw_value ⦃r = raw_unsigned⦄) (word32 n) k) (omega arith)
      (pop_raw-Reads raw_unsigned (n % 2 ^ 32) (ground arith))

-- The value alone is wrapped into a Variant.
wrap-Reads :
    {A : Type 0} (p : Pop A) (wrap : A → Variant) (xs : List ℕ) (a : A)
    → Reads p xs a
    → Reads (p >>= λ v. pure (wrap v)) xs (wrap a)
wrap-Reads p wrap xs a h before rest small =
    ap (λ o. and_then o (λ v. pure (wrap v))) (h before rest small)

pop_string-Reads :
    (s : List ℕ)
    → length s < 2 ^ 32
    → Reads pop_string (word32 (length s) ++ take (length s % 2 ^ 32) s) s
unfolding pop_string
pop_string-Reads s h =
    subst (λ (t : List ℕ). Reads pop_string (word32 (length s) ++ t) s) whole
      (Reads-bind (pop_raw_value ⦃r = raw_unsigned⦄) pop_text (word32 (length s)) s
        (word32-Reads (length s) h) (pop_text-Reads s))
  where
    whole : s ≡ take (length s % 2 ^ 32) s
    whole = sym (ap (λ (n : ℕ). take n s) (omega arith) ∙ take-all s)

-- With a unit of fuel, a signature and what follows it are read as a Variant of that type.
nested-Reads :
    (fuel : ℕ) (k : Kind) (c : ℕ) (xs : List ℕ) (v : Variant)
    → type_signature k ≡ some c
    → Reads (pop_typed (pop_nested fuel) k) xs v
    → Reads (pop_nested (suc fuel)) (c ∷ xs) v
unfolding pop_nested
nested-Reads fuel k c xs v e h before rest small = ground (
  arith,
  available-at before (c ∷ (xs ++ rest)) small,
  Reads-bind pop_type_signature (pop_typed (pop_nested fuel)) (c ∷ []) xs
      (pop_type_signature-Reads k c e) h before rest small,
)

-- Fuel above a bound is a successor.
given_fuel :
    (P : ℕ → Type 0) (fuel : ℕ) {n : ℕ}
    → n < fuel
    → ((left : ℕ) → n < suc left → P (suc left))
    → P fuel
given_fuel P zero enough step = absurd (omega arith)
given_fuel P (suc left) enough step = step left enough

text-Reads :
    (s : List ℕ) (fuel : ℕ)
    → length s < 2 ^ 32
    → 0 < fuel
    → Reads (pop_nested fuel) (encode_text s) (string s)
unfolding type_signature pop_typed
text-Reads s fuel h enough =
    given_fuel (λ f. Reads (pop_nested f) (encode_text s) (string s)) fuel enough
      (λ f _.
        nested-Reads f Kind.string b'S' _ (string s) refl
          (wrap-Reads pop_string string _ s (pop_string-Reads s h)))

abbrev ValueReads : Variant → Type 0
ValueReads v = (fuel : ℕ) → depth v < fuel → Reads (pop_nested fuel) (encode v) v

-- A value of kind `k` is read if what follows its signature is.
typed-Reads :
    (v : Variant) (k : Kind) (c : ℕ) (xs : List ℕ)
    → type_signature k ≡ some c
    → encode v ≡ c ∷ xs
    → ((f : ℕ) → depth v < suc f → Reads (pop_typed (pop_nested f) k) xs v)
    → ValueReads v
typed-Reads v k c xs e form h fuel enough =
    given_fuel (λ f. Reads (pop_nested f) (encode v) v) fuel enough
      (λ f lt.
        subst (λ (bs : List ℕ). Reads (pop_nested (suc f)) bs v) (sym form)
          (nested-Reads f k c xs v e (h f lt)))

mutual
  unfolding encode depth IsStorable type_signature pop_typed of_kind pop_boolean pop_integer
      pop_real pop_list pop_map pop_items pop_entries list_size map_size join_lists join_maps

  value-Reads : (v : Variant) → IsStorable v → ValueReads v
  value-Reads invalid s =
      typed-Reads invalid Kind.invalid b'X' [] refl refl (λ f lt. Reads-pure invalid)
  value-Reads null s = typed-Reads null Kind.null b'N' [] refl refl (λ f lt. Reads-pure null)
  value-Reads (boolean b) s =
      typed-Reads (boolean b) Kind.boolean b'B' _ refl refl
        (λ f lt. wrap-Reads pop_boolean boolean _ b (pop_raw-Reads raw_bool b refl))
  value-Reads (integer i) s =
      typed-Reads (integer i) Kind.integer b'I' _ refl refl
        (λ f lt. wrap-Reads pop_integer integer _ i (pop_raw-Reads raw_int i s))
  value-Reads (real r) s =
      typed-Reads (real r) Kind.real b'R' _ refl refl
        (λ f lt. wrap-Reads pop_real real _ r (pop_raw-Reads raw_double r s))
  value-Reads (string t) s = λ fuel lt. text-Reads t fuel s lt
  value-Reads (list l) s = typed-Reads (list l) Kind.list b'L' _ refl refl (λ f lt.
      wrap-Reads (pop_list (pop_nested f)) list _ l (
        Reads-bind (pop_raw_value ⦃r = raw_unsigned⦄) (λ n. pop_items (pop_nested f) n nil)
          (word32 (list_size l)) (encode_items l) (word32-Reads (list_size l) s.0)
          (items-Reads l s.1 f (omega arith) nil)))
  value-Reads (map m) s = typed-Reads (map m) Kind.map b'M' _ refl refl (λ f lt.
      wrap-Reads (pop_map (pop_nested f)) map _ m (
        Reads-bind (pop_raw_value ⦃r = raw_unsigned⦄) (λ n. pop_entries (pop_nested f) n end)
          (word32 (map_size m)) (encode_entries m) (word32-Reads (map_size m) s.0)
          (entries-Reads m s.1 f (omega arith) end tt)))
  value-Reads max_types s = absurd s

  items-Reads :
      (l : VariantList)
      → AreStorable l
      → (fuel : ℕ) → depth_items l < fuel
      → (found : VariantList)
      → Reads
          (pop_items (pop_nested fuel) (list_size l) found)
          (encode_items l)
          (join_lists found l)
  items-Reads nil s fuel lt found =
      subst (λ x. Reads (pure found) [] x) (sym (join_lists-nil found)) (Reads-pure found)
  items-Reads (cons v l) s fuel lt found =
      Reads-bind (pop_nested fuel)
        (λ w. pop_items (pop_nested fuel) (list_size l) (push_back found w)) (encode v)
        (encode_items l) (value-Reads v s.0 fuel (omega arith))
        (subst
          (λ x.
            Reads (pop_items (pop_nested fuel) (list_size l) (push_back found v)) (encode_items l)
              x)
          (join_lists-push_back found v l)
          (items-Reads l s.1 fuel (omega arith) (push_back found v)))

  entries-Reads :
      (m : VariantMap)
      → AreEntriesStorable m
      → (fuel : ℕ) → depth_entries m < fuel
      → (found : VariantMap) → Before found m
      → Reads
          (pop_entries (pop_nested fuel) (map_size m) found)
          (encode_entries m)
          (join_maps found m)
  entries-Reads end s fuel lt found b =
      subst (λ x. Reads (pure found) [] x) (sym (join_maps-end found)) (Reads-pure found)
  entries-Reads (entry k v m) s fuel lt found b =
      Reads-bind (pop_nested fuel) _ (encode_text k) (encode v ++ encode_entries m)
        (text-Reads k fuel s.0 (omega arith))
        (Reads-bind (pop_nested fuel)
          (λ w. pop_entries (pop_nested fuel) (map_size m) (map_set found k w)) (encode v)
          (encode_entries m) (value-Reads v s.1 fuel (omega arith))
          (subst
            (λ x.
              Reads (pop_entries (pop_nested fuel) (map_size m) (map_set found k v))
                (encode_entries m) x)
            (map_set-last found k v m b)
            (entries-Reads m s.3 fuel (omega arith) (map_set found k v)
              (Before-map_set found k v m b s.2))))

pub pop_value-Reads : (v : Variant) → IsStorable v → Reads pop_value (encode v) v
unfolding pop_value
pop_value-Reads v s before rest small =
    value-Reads v s (suc (available (at before (encode v ++ rest))))
      (omega (
        arith,
        available-at before (encode v ++ rest) small,
        length-append (encode v) rest,
        depth-encode v,
      ))
      before rest small
