-- ===== src/Serializer/Prefix.antt =====
-- src/ByteArraySerializer.cpp: popValue on an array that is cut short.
use ucxx.Base.{
  ℕ, zero, suc, ◌+◌, ◌<◌, ◌≤◌, ◌^◌, ◌≡◌, refl, sym, ap, subst, ◌∙◌, List, [], ◌++◌, false, arith,
  leb, length, length-append, All, append-nil, Bool-cases, inl, inr,
}
use ucxx.Base.Words.{IsByte}
use ucxx.Serializer.State.{Outcome, Pop, ok, rejected, fault, no_value, available, pure, ◌>>=◌}
use ucxx.Serializer.Encode.{encode}
use ucxx.Serializer.Raw.{pop_raw_value, raw_bool, raw_int, raw_unsigned, raw_double}
use ucxx.Serializer.Signature.{pop_type_signature}
use ucxx.Serializer.Pop.{
  pop_boolean, pop_integer, pop_real, pop_text, pop_string, key_of, pop_items, pop_entries,
  pop_list, pop_map, pop_typed, pop_nested, pop_value,
}
use ucxx.Serializer.Storable.{IsStorable}
use ucxx.Serializer.Reads.{reader}
use ucxx.Serializer.Values.{pop_value-Reads}
use ucxx.Serializer.Local.{
  longer, Extends, IsLocal, IsLocal-bind, IsLocal-pure, Extends-bind, available-longer,
  available-le, pop_raw-IsLocal, pop_text-IsLocal, pop_type_signature-IsLocal,
}
use ucxx.Serializer.Pops.{Pops, returns, rejects, undefined, endless}
use ucxx.Serializer.Safety.{pop_value-Pops}
use ucxx.Variant.{
  Kind, Variant, VariantList, VariantMap, boolean, integer, real, string, list, map, nil, end,
  of_kind,
}
use ucxx.Variant.Containers.{push_back, map_set}

abbrev pop_size : Pop ℕ
pop_size = pop_raw_value ⦃r = raw_unsigned⦄

module _ (rest : List ℕ) where
  wrap-IsLocal :
      {A : Type 0} (p q : Pop A) (wrap : A → Variant)
      → IsLocal rest p q
      → IsLocal rest (p >>= λ v. pure (wrap v)) (q >>= λ v. pure (wrap v))
  wrap-IsLocal p q wrap h =
      IsLocal-bind rest p q (λ v. pure (wrap v)) (λ v. pure (wrap v)) h
        (λ v. IsLocal-pure rest (wrap v))

  pop_string-IsLocal : IsLocal rest pop_string pop_string
  unfolding pop_string
  pop_string-IsLocal =
      IsLocal-bind rest pop_size pop_size pop_text pop_text (pop_raw-IsLocal rest raw_unsigned)
        (pop_text-IsLocal rest)

  module _ (p q : Pop Variant) (local : IsLocal rest p q) where
    items-IsLocal :
        (n : ℕ) (found : VariantList) → IsLocal rest (pop_items p n found) (pop_items q n found)
    unfolding pop_items
    items-IsLocal zero found = IsLocal-pure rest found
    items-IsLocal (suc n) found =
        IsLocal-bind rest p q (λ v. pop_items p n (push_back found v))
          (λ v. pop_items q n (push_back found v)) local (λ v. items-IsLocal n (push_back found v))

    key-IsLocal : (key : Variant) → IsLocal rest (key_of key) (key_of key)
    key-IsLocal (string k) = IsLocal-pure rest k
    key-IsLocal _ = λ s inside. tt

    entries-IsLocal :
        (n : ℕ) (found : VariantMap) → IsLocal rest (pop_entries p n found) (pop_entries q n found)
    unfolding pop_entries
    entries-IsLocal zero found = IsLocal-pure rest found
    entries-IsLocal (suc n) found =
        IsLocal-bind rest p q
          (λ key. key_of key >>= λ k. p >>= λ v. pop_entries p n (map_set found k v))
          (λ key. key_of key >>= λ k. q >>= λ v. pop_entries q n (map_set found k v)) local
          (λ key.
            IsLocal-bind rest (key_of key) (key_of key)
              (λ k. p >>= λ v. pop_entries p n (map_set found k v))
              (λ k. q >>= λ v. pop_entries q n (map_set found k v)) (key-IsLocal key)
              (λ k.
                IsLocal-bind rest p q (λ v. pop_entries p n (map_set found k v))
                  (λ v. pop_entries q n (map_set found k v)) local
                  (λ v. entries-IsLocal n (map_set found k v))))

    list-IsLocal : IsLocal rest (pop_list p) (pop_list q)
    unfolding pop_list
    list-IsLocal =
        IsLocal-bind rest pop_size pop_size (λ n. pop_items p n nil) (λ n. pop_items q n nil)
          (pop_raw-IsLocal rest raw_unsigned) (λ n. items-IsLocal n nil)

    map-IsLocal : IsLocal rest (pop_map p) (pop_map q)
    unfolding pop_map
    map-IsLocal =
        IsLocal-bind rest pop_size pop_size (λ n. pop_entries p n end) (λ n. pop_entries q n end)
          (pop_raw-IsLocal rest raw_unsigned) (λ n. entries-IsLocal n end)

    typed-IsLocal : (k : Kind) → IsLocal rest (pop_typed p k) (pop_typed q k)
    unfolding pop_typed pop_boolean pop_integer pop_real
    typed-IsLocal Kind.invalid = IsLocal-pure rest (of_kind Kind.invalid)
    typed-IsLocal Kind.null = IsLocal-pure rest (of_kind Kind.null)
    typed-IsLocal Kind.boolean =
        wrap-IsLocal pop_boolean pop_boolean boolean (pop_raw-IsLocal rest raw_bool)
    typed-IsLocal Kind.integer =
        wrap-IsLocal pop_integer pop_integer integer (pop_raw-IsLocal rest raw_int)
    typed-IsLocal Kind.real = wrap-IsLocal pop_real pop_real real (pop_raw-IsLocal rest raw_double)
    typed-IsLocal Kind.string = wrap-IsLocal pop_string pop_string string pop_string-IsLocal
    typed-IsLocal Kind.list = wrap-IsLocal (pop_list p) (pop_list q) list list-IsLocal
    typed-IsLocal Kind.map = wrap-IsLocal (pop_map p) (pop_map q) map map-IsLocal
    typed-IsLocal Kind.max_types = λ s inside. tt

  -- With as much fuel or more.
  nested-IsLocal : (n m : ℕ) → n ≤ m → IsLocal rest (pop_nested n) (pop_nested m)
  unfolding pop_nested
  nested-IsLocal zero m le s inside = tt
  nested-IsLocal (suc n) zero le s inside = absurd (omega arith)
  nested-IsLocal (suc n) (suc m) le s inside = elim (Bool-cases (leb (available s) 0)) [
    | inl done ↦ rw (done, pop_nested) tt
    | inr more ↦
        let (more', _) = available-longer rest s 1 inside (ground arith) in
        let more'' : leb (available (longer rest s)) 0 ≡ false = ground arith in
        rw (more, more'', pop_nested)
          (Extends-bind rest s (pop_type_signature s) (pop_type_signature (longer rest s))
            (pop_typed (pop_nested n)) (pop_typed (pop_nested m))
            (pop_type_signature-IsLocal rest s inside)
            (λ k. typed-IsLocal (pop_nested n) (pop_nested m) (nested-IsLocal n m (omega arith)) k))
  ]

  value-IsLocal : IsLocal rest pop_value pop_value
  unfolding pop_value
  value-IsLocal s inside =
      nested-IsLocal (suc (available s)) (suc (available (longer rest s)))
        (omega (arith, available-le rest s inside)) s inside

reader-Extends :
    (bytes rest : List ℕ) (i : ℕ)
    → length bytes + length rest < 2 ^ 64
    → i ≤ length bytes
    → i < 2 ^ 32
    → Extends rest
        (reader bytes i)
        (pop_value (reader bytes i))
        (pop_value (reader (bytes ++ rest) i))
reader-Extends bytes rest i sized inside word =
    value-IsLocal rest (reader bytes i) (record { inside = inside; word = word; sized = sized })

pub pop_value-append :
    (bytes rest : List ℕ) (i j : ℕ) (v : Variant)
    → length bytes + length rest < 2 ^ 64
    → i ≤ length bytes
    → i < 2 ^ 32
    → pop_value (reader bytes i) ≡ ok v (reader bytes j)
    → pop_value (reader (bytes ++ rest) i) ≡ ok v (reader (bytes ++ rest) j)
pop_value-append bytes rest i j v sized inside word popped =
    (subst (λ o. Extends rest (reader bytes i) o (pop_value (reader (bytes ++ rest) i))) popped
      (reader-Extends bytes rest i sized inside word)).2

pub pop_value-encode :
    (v : Variant)
    → IsStorable v
    → length (encode v) < 2 ^ 32
    → pop_value (reader (encode v) 0) ≡ ok v (reader (encode v) (length (encode v)))
pop_value-encode v storable small =
    subst
      (λ (b : List ℕ).
        length b < 2 ^ 32 → pop_value (reader b 0) ≡ ok v (reader b (length (encode v))))
      (append-nil (encode v)) (pop_value-Reads v storable [] [])
      (omega (arith, length-append (encode v) []))

-- The encoding of a storable value, whose characters are bytes, is rejected when it is cut short,
-- anywhere. It is assumed to be shorter than 2^32 bytes.
pub pop_value-truncated :
    (v : Variant) (front back : List ℕ)
    → IsStorable v
    → All IsByte front
    → front ++ back ≡ encode v
    → 0 < length back
    → length (encode v) < 2 ^ 32
    → (j : ℕ) × (pop_value (reader front 0) ≡ rejected (reader front j))
pop_value-truncated v front back storable all_bytes cut some_missing small =
    run (pop_value (reader front 0)) refl
      (pop_value-Pops front 0 all_bytes (omega (arith, lengths)) (omega arith) (omega arith))
  where
    lengths : length front + length back ≡ length (encode v)
    lengths = sym (length-append front back) ∙ ap length cut

    whole : pop_value (reader (front ++ back) 0) ≡ ok v (reader (front ++ back) (length (encode v)))
    whole =
        subst (λ (b : List ℕ). pop_value (reader b 0) ≡ ok v (reader b (length (encode v))))
          (sym cut) (pop_value-encode v storable small)

    run :
        (o : Outcome Variant)
        → pop_value (reader front 0) ≡ o
        → Pops front 0 1 IsStorable o
        → (j : ℕ) × (pop_value (reader front 0) ≡ rejected (reader front j))
    run _ e (returns w j lands _) =
        let more =
          pop_value-append front back 0 j w (omega (arith, lengths)) (omega arith) (omega arith)
            e in
        let same : length (encode v) ≡ j = cc (whole, more) in
        absurd (omega (arith, lengths, lands.0))
    run _ e (rejects j lands) = (j, e)
    run _ e undefined =
        let same : pop_value (reader (front ++ back) 0) ≡ fault no_value =
          subst (λ o. Extends back (reader front 0) o (pop_value (reader (front ++ back) 0))) e
            (reader-Extends front back 0 (omega (arith, lengths)) (omega arith) (omega arith)) in
        absurd (cc (whole, same))
    run _ e (endless unending) = absurd (unending (omega (arith, lengths)))
