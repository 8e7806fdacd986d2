-- ===== src/Serializer/Local.antt =====
-- The functions of src/ByteArraySerializer.cpp that read do not depend on what follows.
use ucxx.Base.{
  ℕ, ◌+◌, ◌<◌, ◌≤◌, ◌^◌, ◌≡◌, refl, ◌∙◌, List, ◌++◌, Option, none, some, false, arith, ltb, length,
  length-append, length-drop, drop-append_within, take-append_within, get_elem?-append_within, drop,
  Bool-cases, inl, inr, get_elem?,
}
use ucxx.ByteArray
use ucxx.ByteArray.{read_buffer}
use ucxx.Serializer.State.{
  Serializer, Outcome, Pop, ok, rejected, fault, out_of_fuel, no_value, out_of_bounds, available,
  advance, and_then, pure, ◌>>=◌,
}
use ucxx.Serializer.Raw.{Raw, pop_raw_value, load_raw_value}
use ucxx.Serializer.Signature.{signature_type, pop_type_signature, load_type_signature}
use ucxx.Serializer.Pop.{pop_text, load_text}
use ucxx.Variant.{Kind}

module _ (rest : List ℕ) where
  -- The same index, with more bytes at the end of the array.
  abbrev pub longer : Serializer → Serializer
  longer s = record s { byte_array = record { bytes = s.byte_array.bytes ++ rest } }

  pub record IsInside (s : Serializer) : Type 0 where
    pub inside : s.index ≤ length s.byte_array.bytes
    pub word : s.index < 2 ^ 32
    pub sized : length s.byte_array.bytes + length rest < 2 ^ 64

  -- A run that returns a value, or meets a byte that is no bool, does so with more bytes as well.
  abbrev pub Extends : {A : Type 0} → Serializer → Outcome A → Outcome A → Type 0
  Extends s (ok a t) o = (t.byte_array ≡ s.byte_array) × IsInside t × (o ≡ ok a (longer t))
  Extends s (fault no_value) o = o ≡ fault no_value
  Extends s _ o = Unit {0}

  abbrev pub IsLocal : {A : Type 0} → Pop A → Pop A → Type 0
  IsLocal p q = (s : Serializer) → IsInside s → Extends s (p s) (q (longer s))

  Extends-from :
      {A : Type 0} (s t : Serializer) (o q : Outcome A)
      → t.byte_array ≡ s.byte_array
      → Extends t o q
      → Extends s o q
  Extends-from s t (ok a u) q same (same', inside, e) = (same' ∙ same, inside, e)
  Extends-from s t (fault no_value) q same e = e
  Extends-from s t (fault out_of_bounds) q same e = tt
  Extends-from s t (rejected u) q same e = tt
  Extends-from s t out_of_fuel q same e = tt

  pub Extends-bind :
      {A B : Type 0} (s : Serializer) (o q : Outcome A) (f g : A → Pop B)
      → Extends s o q
      → ((a : A) → IsLocal (f a) (g a))
      → Extends s (and_then o f) (and_then q g)
  Extends-bind s (ok a t) q f g (same, inside, e) h =
      rw e (Extends-from s t (f a t) (g a (longer t)) same (h a t inside))
  Extends-bind s (fault no_value) q f g e h = rw e refl
  Extends-bind s (fault out_of_bounds) q f g e h = tt
  Extends-bind s (rejected u) q f g e h = tt
  Extends-bind s out_of_fuel q f g e h = tt

  pub IsLocal-bind :
      {A B : Type 0} (p q : Pop A) (f g : A → Pop B)
      → IsLocal p q
      → ((a : A) → IsLocal (f a) (g a))
      → IsLocal (p >>= f) (q >>= g)
  IsLocal-bind p q f g first then s inside =
      Extends-bind s (p s) (q (longer s)) f g (first s inside) then

  pub IsLocal-pure : {A : Type 0} (a : A) → IsLocal (pure a) (pure a)
  IsLocal-pure a s inside = (refl, inside, refl)

  -- A guard that lets a read of `n` bytes pass.
  pub available-longer :
      (s : Serializer) (n : ℕ)
      → IsInside s
      → ltb (available s) n ≡ false
      → (ltb (available (longer s)) n ≡ false) × (s.index + n ≤ length s.byte_array.bytes)
  unfolding available ByteArray.size
  available-longer s n inside guard =
      let sum : length (s.byte_array.bytes ++ rest) ≡ length s.byte_array.bytes + length rest =
        length-append s.byte_array.bytes rest in
      (ground (arith, inside.sized, inside.inside), ground (arith, inside.sized, inside.inside))

  pub available-le : (s : Serializer) → IsInside s → available s ≤ available (longer s)
  unfolding available ByteArray.size
  available-le s inside =
      omega (arith, inside.sized, inside.inside, length-append s.byte_array.bytes rest)

  -- What is read there is the same.
  read-longer :
      (s : Serializer) (n : ℕ)
      → s.index + n ≤ length s.byte_array.bytes
      → read_buffer (ByteArray.const_data (longer s).byte_array s.index) n
        ≡ read_buffer (ByteArray.const_data s.byte_array s.index) n
  unfolding ByteArray.const_data
  read-longer s n fits =
      let here = drop s.index s.byte_array.bytes in
      let left : n ≤ length here = omega (arith, length-drop s.index s.byte_array.bytes) in
      rw (drop-append_within s.index s.byte_array.bytes rest (omega arith))
        (ground (arith, take-append_within n here rest left, length-append here rest))

  advance-IsInside :
      (s : Serializer) (n : ℕ)
      → IsInside s
      → s.index + n ≤ length s.byte_array.bytes
      → IsInside (advance s n)
  advance-IsInside s n inside fits = record {
    inside = omega (arith, inside.word);
    word = omega arith;
    sized = inside.sized;
  }

  pub pop_raw-IsLocal :
      {T : Type 0} (r : Raw T) → IsLocal (pop_raw_value ⦃r = r⦄) (pop_raw_value ⦃r = r⦄)
  unfolding pop_raw_value load_raw_value
  pop_raw-IsLocal {T} r s inside = elim (Bool-cases (ltb (available s) r.size)) [
    | inl short ↦ rw (short, pop_raw_value) tt
    | inr guard ↦
        let (guard', fits) = available-longer s r.size inside guard in
        rw (guard, guard', pop_raw_value, read-longer s r.size fits, load_raw_value)
          (loaded (read_buffer (ByteArray.const_data s.byte_array s.index) r.size) fits)
  ]
    where
      decoded :
          (o : Option T)
          → s.index + r.size ≤ length s.byte_array.bytes
          → Extends s
              (elim o [ none ↦ fault no_value | some v ↦ ok v (advance s r.size) ])
              (elim o [ none ↦ fault no_value | some v ↦ ok v (advance (longer s) r.size) ])
      decoded none fits = refl
      decoded (some v) fits = (refl, advance-IsInside s r.size inside fits, refl)

      loaded :
          (o : Option (List ℕ))
          → s.index + r.size ≤ length s.byte_array.bytes
          → Extends s
              (elim o [
                | none ↦ fault out_of_bounds
                | some bs ↦ elim (r.decode bs) [
                  | none ↦ fault no_value
                  | some v ↦ ok v (advance s r.size)
                ]
              ])
              (elim o [
                | none ↦ fault out_of_bounds
                | some bs ↦ elim (r.decode bs) [
                  | none ↦ fault no_value
                  | some v ↦ ok v (advance (longer s) r.size)
                ]
              ])
      loaded none fits = tt
      loaded (some bs) fits = decoded (r.decode bs) fits

  pub pop_text-IsLocal : (n : ℕ) → IsLocal (pop_text n) (pop_text n)
  unfolding pop_text load_text
  pop_text-IsLocal n s inside = elim (Bool-cases (ltb (available s) n)) [
    | inl short ↦ rw (short, pop_text) tt
    | inr guard ↦
        let (guard', fits) = available-longer s n inside guard in
        rw (guard, guard', pop_text, read-longer s n fits, load_text)
          (loaded (read_buffer (ByteArray.const_data s.byte_array s.index) n) fits)
  ]
    where
      loaded :
          (o : Option (List ℕ))
          → s.index + n ≤ length s.byte_array.bytes
          → Extends s
              (elim o [ none ↦ fault out_of_bounds | some text ↦ ok text (advance s n) ])
              (elim o [ none ↦ fault out_of_bounds | some text ↦ ok text (advance (longer s) n) ])
      loaded none fits = tt
      loaded (some text) fits = (refl, advance-IsInside s n inside fits, refl)

  pub pop_type_signature-IsLocal : IsLocal pop_type_signature pop_type_signature
  unfolding pop_type_signature load_type_signature
  pop_type_signature-IsLocal s inside = elim (Bool-cases (ltb (available s) 1)) [
    | inl short ↦ rw (short, pop_type_signature) tt
    | inr guard ↦
        let (guard', fits) = available-longer s 1 inside guard in
        rw
          (
            guard,
            guard',
            pop_type_signature,
            get_elem?-append_within s.byte_array.bytes rest s.index (omega arith),
            load_type_signature,
          )
          (loaded (get_elem? s.byte_array.bytes s.index) fits)
  ]
    where
      known :
          (o : Option Kind)
          → s.index + 1 ≤ length s.byte_array.bytes
          → Extends s
              (elim o [ none ↦ rejected s | some type ↦ ok type (advance s 1) ])
              (elim o [ none ↦ rejected (longer s) | some type ↦ ok type (advance (longer s) 1) ])
      known none fits = tt
      known (some type) fits = (refl, advance-IsInside s 1 inside fits, refl)

      loaded :
          (o : Option ℕ)
          → s.index + 1 ≤ length s.byte_array.bytes
          → Extends s
              (elim o [
                | none ↦ fault out_of_bounds
                | some c ↦ elim (signature_type c) [
                  | none ↦ rejected s
                  | some type ↦ ok type (advance s 1)
                ]
              ])
              (elim o [
                | none ↦ fault out_of_bounds
                | some c ↦ elim (signature_type c) [
                  | none ↦ rejected (longer s)
                  | some type ↦ ok type (advance (longer s) 1)
                ]
              ])
      loaded none fits = tt
      loaded (some c) fits = known (signature_type c) fits
