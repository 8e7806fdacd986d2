-- ===== src/Serializer/Safety.antt =====
-- src/ByteArraySerializer.cpp: popValue on any array.
use ucxx.Base.{
  ℕ, zero, suc, ◌+◌, ◌-◌, ◌<◌, ◌≤◌, ◌^◌, List, arith, leb, length, All, Bool-cases, ltb→lt, inl,
  inr,
}
use ucxx.Base.Words.{IsByte}
use ucxx.Serializer.State.{Pop, pure, available, ◌>>=◌}
use ucxx.Serializer.Raw.{raw_bool, raw_int, raw_unsigned, raw_double}
use ucxx.Serializer.Push.{list_size, map_size}
use ucxx.Serializer.Pop.{
  pop_boolean, pop_integer, pop_real, pop_text, pop_string, key_of, pop_items, pop_entries,
  pop_list, pop_map, pop_typed, pop_nested, pop_value,
}
use ucxx.Serializer.Storable.{
  IsStorable, AreStorable, AreEntriesStorable, list_size-push_back, push_back-AreStorable,
  map_size-map_set, map_set-AreEntriesStorable,
}
use ucxx.Serializer.Reads.{reader}
use ucxx.Serializer.Pops.{
  Lands, Pops, returns, rejects, endless, Pops-bind, Pops-fewer, available-reader, pop_raw-Pops,
  pop_text-Pops, pop_type_signature-Pops,
}
use ucxx.Variant.{
  Kind, Variant, VariantList, VariantMap, invalid, null, boolean, integer, real, string, list, map,
  nil, end, of_kind,
}
use ucxx.Variant.Keys.{Key}
use ucxx.Variant.Containers.{push_back, map_set}

module _ (bytes : List ℕ) (all_bytes : All IsByte bytes) (sized : length bytes < 2 ^ 64) where
  -- A value alone is wrapped into a Variant.
  wrap-Pops :
      {A : Type 0} {P : A → Type 0} (p : Pop A) (wrap : A → Variant) (i n : ℕ)
      → ((a : A) → P a → IsStorable (wrap a))
      → Pops bytes i n P (p (reader bytes i))
      → Pops bytes i 0 IsStorable ((p >>= λ v. pure (wrap v)) (reader bytes i))
  wrap-Pops p wrap i n h run =
      Pops-bind n 0 (λ v. pure (wrap v)) (omega arith) run
        (λ a j at pa. returns (wrap a) j (omega arith) (h a pa))

  pop_string-Pops :
      (i : ℕ)
      → i ≤ length bytes
      → i < 2 ^ 32
      → Pops bytes i 4 (λ s. length s < 2 ^ 32) (pop_string (reader bytes i))
  unfolding pop_string
  pop_string-Pops i inside word =
      Pops-bind 4 0 pop_text (omega arith)
        (pop_raw-Pops bytes all_bytes sized i inside word raw_unsigned (omega arith))
        (λ n j at fits.
          Pops-fewer n 0 (omega arith)
            (pop_text-Pops bytes all_bytes sized j at.0 at.1 n (ltb→lt n (2 ^ 32) fits)))

  module _ (pop : Pop Variant) (from : ℕ)
      (calls : (j : ℕ)
        → Lands bytes from 0 j
        → Pops bytes j 1 IsStorable (pop (reader bytes j))) where
    items-Pops :
        (n : ℕ) (found : VariantList) (j : ℕ)
        → Lands bytes from 0 j
        → AreStorable found
        → list_size found + n < 2 ^ 32
        → Pops bytes j 0 (λ l. IsStorable (list l)) (pop_items pop n found (reader bytes j))
    unfolding pop_items IsStorable
    items-Pops zero found j at stored small = returns found j (omega arith) (omega arith, stored)
    items-Pops (suc n) found j at stored small =
        Pops-bind 1 0 (λ v. pop_items pop n (push_back found v)) (omega arith) (calls j at)
          (λ v l far pv.
            items-Pops n (push_back found v) l (omega arith)
              (push_back-AreStorable found v stored pv)
              (omega (arith, list_size-push_back found v)))

    entries-Pops :
        (n : ℕ) (found : VariantMap) (j : ℕ)
        → Lands bytes from 0 j
        → AreEntriesStorable found
        → map_size found + n < 2 ^ 32
        → Pops bytes j 0 (λ m. IsStorable (map m)) (pop_entries pop n found (reader bytes j))
    unfolding pop_entries IsStorable
    entries-Pops zero found j at stored small = returns found j (omega arith) (omega arith, stored)
    entries-Pops (suc n) found j at stored small =
        Pops-bind 1 0
          (λ key. key_of key >>= λ k. pop >>= λ v. pop_entries pop n (map_set found k v))
          (omega arith) (calls j at)
          (λ key l far pk.
            keyed
              (λ k w r at' hk hw.
                entries-Pops n (map_set found k w) r at'
                  (map_set-AreEntriesStorable found k w stored hk hw)
                  (omega (arith, map_size-map_set found k w)))
              key l (omega arith) pk)
      where
        keyed :
            ((k : Key) (w : Variant) (r : ℕ)
              → Lands bytes from 0 r
              → length k < 2 ^ 32
              → IsStorable w
              → Pops bytes r 0
                  (λ m. IsStorable (map m))
                  (pop_entries pop n (map_set found k w) (reader bytes r)))
            → (key : Variant) (l : ℕ) → Lands bytes from 0 l
            → IsStorable key
            → Pops bytes l 0
                (λ m. IsStorable (map m))
                ((key_of key >>= λ k. pop >>= λ v. pop_entries pop n (map_set found k v))
                  (reader bytes l))
        keyed more (string k) l far pk =
            Pops-bind 1 0 (λ w. pop_entries pop n (map_set found k w)) (omega arith) (calls l far)
              (λ w r at' pw. more k w r (omega arith) pk pw)
        keyed more _ l far pk = rejects l (omega arith)

    list-Pops :
        (j : ℕ)
        → Lands bytes from 0 j
        → Pops bytes j 0 (λ l. IsStorable (list l)) (pop_list pop (reader bytes j))
    unfolding pop_list list_size AreStorable
    list-Pops j at =
        Pops-bind 4 0 (λ n. pop_items pop n nil) (omega arith)
          (pop_raw-Pops bytes all_bytes sized j at.0 at.1 raw_unsigned (omega arith))
          (λ n l far fits.
            items-Pops n nil l (omega arith) tt (omega (arith, ltb→lt n (2 ^ 32) fits)))

    map-Pops :
        (j : ℕ)
        → Lands bytes from 0 j
        → Pops bytes j 0 (λ m. IsStorable (map m)) (pop_map pop (reader bytes j))
    unfolding pop_map map_size AreEntriesStorable
    map-Pops j at =
        Pops-bind 4 0 (λ n. pop_entries pop n end) (omega arith)
          (pop_raw-Pops bytes all_bytes sized j at.0 at.1 raw_unsigned (omega arith))
          (λ n l far fits.
            entries-Pops n end l (omega arith) tt (omega (arith, ltb→lt n (2 ^ 32) fits)))

    typed-Pops :
        (k : Kind) (j : ℕ)
        → Lands bytes from 0 j
        → Pops bytes j 0 IsStorable (pop_typed pop k (reader bytes j))
    unfolding pop_typed of_kind pop_boolean pop_integer pop_real IsStorable
    typed-Pops Kind.invalid j at = returns invalid j (omega arith) tt
    typed-Pops Kind.null j at = returns null j (omega arith) tt
    typed-Pops Kind.boolean j at =
        wrap-Pops pop_boolean boolean j 1 (λ _ _. tt)
          (pop_raw-Pops bytes all_bytes sized j at.0 at.1 raw_bool (omega arith))
    typed-Pops Kind.integer j at =
        wrap-Pops pop_integer integer j 4 (λ _ h. h)
          (pop_raw-Pops bytes all_bytes sized j at.0 at.1 raw_int (omega arith))
    typed-Pops Kind.real j at =
        wrap-Pops pop_real real j 8 (λ _ h. h)
          (pop_raw-Pops bytes all_bytes sized j at.0 at.1 raw_double (omega arith))
    typed-Pops Kind.string j at =
        wrap-Pops pop_string string j 4 (λ _ h. h) (pop_string-Pops j at.0 at.1)
    typed-Pops Kind.list j at = wrap-Pops (pop_list pop) list j 0 (λ _ h. h) (list-Pops j at)
    typed-Pops Kind.map j at = wrap-Pops (pop_map pop) map j 0 (λ _ h. h) (map-Pops j at)
    typed-Pops Kind.max_types j at = rejects j (omega arith)

  nested-Pops :
      (fuel i : ℕ)
      → i ≤ length bytes
      → i < 2 ^ 32
      → (length bytes < 2 ^ 32 → length bytes - i < fuel)
      → Pops bytes i 1 IsStorable (pop_nested fuel (reader bytes i))
  unfolding pop_nested
  nested-Pops zero i inside word enough = endless (λ small. omega (arith, enough small))
  nested-Pops (suc fuel) i inside word enough =
      elim (Bool-cases (leb (available (reader bytes i)) 0)) [
        | inl done ↦ rw (done, pop_nested) (rejects i (omega arith))
        | inr more ↦
            rw (more, pop_nested)
              (Pops-bind 1 0 (pop_typed (pop_nested fuel)) (omega arith)
                (pop_type_signature-Pops bytes all_bytes sized i inside word)
                (λ k j at _.
                  typed-Pops (pop_nested fuel) j
                    (λ l far.
                      nested-Pops fuel l far.0 far.1
                        (λ small. omega (arith, enough small, at.2 small, far.2 small)))
                    k j (omega arith)))
      ]

pub pop_value-Pops :
    (bytes : List ℕ) (i : ℕ)
    → All IsByte bytes
    → length bytes < 2 ^ 64
    → i ≤ length bytes
    → i < 2 ^ 32
    → Pops bytes i 1 IsStorable (pop_value (reader bytes i))
unfolding pop_value
pop_value-Pops bytes i all_bytes sized inside word =
    nested-Pops bytes all_bytes sized (suc (available (reader bytes i))) i inside word
      (λ small. omega (arith, available-reader bytes all_bytes sized i inside word))
