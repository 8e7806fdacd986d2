-- ===== src/Serializer/Pops.antt =====
-- What the reading functions of src/ByteArraySerializer.cpp do on any array.
use ucxx.Base.{
  ℕ, zero, suc, ◌+◌, ◌-◌, ◌%◌, ◌<◌, ◌≤◌, ◌^◌, ◌≡◌, refl, List, [], ◌∷◌, Option, none, some, true,
  false, arith, ltb, length, take, drop, length-take, length-drop, All, All-take, All-drop,
  Bool-cases, inl, inr, get_elem?,
}
use ucxx.Base.Words.{IsByte}
use ucxx.ByteArray
use ucxx.ByteArray.{read_buffer}
use ucxx.Serializer.State.{
  Outcome, Pop, ok, rejected, fault, out_of_fuel, no_value, available, advance, and_then,
}
use ucxx.Serializer.Raw.{Raw, pop_raw_value, load_raw_value}
use ucxx.Serializer.Signature.{signature_type, pop_type_signature, load_type_signature}
use ucxx.Serializer.Pop.{pop_text, load_text}
use ucxx.Serializer.Reads.{reader}
use ucxx.Variant.{Kind}

-- From index `i` the reader comes to `j`: within the array, and in an array shorter than 2^32 bytes
-- by `n` bytes at least.
abbrev pub Lands : List ℕ → ℕ → ℕ → ℕ → Type 0
Lands bytes i n j = (j ≤ length bytes) × (j < 2 ^ 32) × (length bytes < 2 ^ 32 → i + n ≤ j)

-- A run from index `i`: it returns a value with `P` and has read `n` bytes at least, or returns
-- false, or meets a byte that is no bool; the array is unchanged, and nothing outside it is read.
-- It may fail to end only if the array has 2^32 bytes or more.
pub data Pops (bytes : List ℕ) (i n : ℕ) {A : Type 0} (P : A → Type 0) : Outcome A → Type 0 where
  returns : (a : A) (j : ℕ) → Lands bytes i n j → P a → Pops bytes i n P (ok a (reader bytes j))
  rejects : (j : ℕ) → Lands bytes i 0 j → Pops bytes i n P (rejected (reader bytes j))
  undefined : Pops bytes i n P (fault no_value)
  endless : ¬ (length bytes < 2 ^ 32) → Pops bytes i n P out_of_fuel

module _ {bytes : List ℕ} where
  -- A run that goes on from a later index.
  Pops-later :
      {B : Type 0} {Q : B → Type 0} (n m : ℕ) {i j k : ℕ} {o : Outcome B}
      → k ≤ n + m
      → Lands bytes i n j
      → Pops bytes j m Q o
      → Pops bytes i k Q o
  Pops-later n m le at (returns b l far qb) =
      returns b l (far.0, far.1, λ small. omega (arith, at.2 small, far.2 small)) qb
  Pops-later n m le at (rejects l far) =
      rejects l (far.0, far.1, λ small. omega (arith, at.2 small, far.2 small))
  Pops-later n m le at undefined = undefined
  Pops-later n m le at (endless e) = endless e

  pub Pops-bind :
      {A B : Type 0} {P : A → Type 0} {Q : B → Type 0} {i : ℕ} (n m : ℕ) {k : ℕ} {o : Outcome A}
      (f : A → Pop B)
      → k ≤ n + m
      → Pops bytes i n P o
      → ((a : A) (j : ℕ) → Lands bytes i n j → P a → Pops bytes j m Q (f a (reader bytes j)))
      → Pops bytes i k Q (and_then o f)
  Pops-bind n m f le (returns a j at pa) h = Pops-later n m le at (h a j at pa)
  Pops-bind n m f le (rejects j at) h = rejects j at
  Pops-bind n m f le undefined h = undefined
  Pops-bind n m f le (endless e) h = endless e

  pub Pops-fewer :
      {A : Type 0} {P : A → Type 0} (n m : ℕ) {i : ℕ} {o : Outcome A}
      → m ≤ n
      → Pops bytes i n P o
      → Pops bytes i m P o
  Pops-fewer n m le (returns a j at pa) = returns a j (omega arith) pa
  Pops-fewer n m le (rejects j at) = rejects j at
  Pops-fewer n m le undefined = undefined
  Pops-fewer n m le (endless e) = endless e

module _ (bytes : List ℕ) (all_bytes : All IsByte bytes) (sized : length bytes < 2 ^ 64) (i : ℕ)
    (inside : i ≤ length bytes) (word : i < 2 ^ 32) where
  pub available-reader : available (reader bytes i) ≡ length bytes - i
  unfolding available ByteArray.size
  available-reader = omega arith

  -- The guard of a read of `n` bytes, and the bytes that it lets pass.
  read_guarded :
      (n : ℕ)
      → ltb (available (reader bytes i)) n ≡ false
      → (read_buffer (ByteArray.const_data (record { bytes = bytes }) i) n
          ≡ some (take n (drop i bytes)))
        × (length (take n (drop i bytes)) ≡ n)
        × (i + n ≤ length bytes)
  unfolding ByteArray.const_data
  read_guarded n h =
      ground (arith, available-reader, length-drop i bytes, length-take n (drop i bytes))

  Lands-after : (n : ℕ) → n < 2 ^ 32 → i + n ≤ length bytes → Lands bytes i n ((i + n) % 2 ^ 32)
  Lands-after n small fits = omega arith

  here : Lands bytes i 0 i
  here = omega arith

  module _ {T : Type 0} (r : Raw T) (narrow : r.size < 2 ^ 32) where
    load_raw-Pops :
        ltb (available (reader bytes i)) r.size ≡ false
        → Pops bytes i r.size (λ v. r.fits v ≡ true) (load_raw_value ⦃r = r⦄ (reader bytes i))
    unfolding load_raw_value
    load_raw-Pops guard =
        let (read, whole, fits) = read_guarded r.size guard in
        rw (read, load_raw_value) (decoded (r.decode (take r.size (drop i bytes))) refl whole fits)
      where
        decoded :
            (o : Option T)
            → r.decode (take r.size (drop i bytes)) ≡ o
            → length (take r.size (drop i bytes)) ≡ r.size
            → i + r.size ≤ length bytes
            → Pops bytes i r.size
                (λ v. r.fits v ≡ true)
                (elim o [ none ↦ fault no_value | some v ↦ ok v (advance (reader bytes i) r.size) ])
        decoded none e whole fits = undefined
        decoded (some v) e whole fits =
            returns v ((i + r.size) % 2 ^ 32) (Lands-after r.size narrow fits) (
              r.fits-decode (take r.size (drop i bytes)) v whole
                (All-take IsByte r.size _ (All-drop IsByte i bytes all_bytes)) e)

    pub pop_raw-Pops :
        Pops bytes i r.size (λ v. r.fits v ≡ true) (pop_raw_value ⦃r = r⦄ (reader bytes i))
    unfolding pop_raw_value
    pop_raw-Pops = elim (Bool-cases (ltb (available (reader bytes i)) r.size)) [
      | inl short ↦ rw (short, pop_raw_value) (rejects i here)
      | inr guard ↦ rw (guard, pop_raw_value) (load_raw-Pops guard)
    ]

  -- A text whose length has been read.
  pub pop_text-Pops :
      (n : ℕ) → n < 2 ^ 32 → Pops bytes i n (λ s. length s < 2 ^ 32) (pop_text n (reader bytes i))
  unfolding pop_text load_text
  pop_text-Pops n small = elim (Bool-cases (ltb (available (reader bytes i)) n)) [
    | inl short ↦ rw (short, pop_text) (rejects i here)
    | inr guard ↦
        let (read, whole, fits) = read_guarded n guard in
        rw (guard, pop_text, read, load_text)
          (returns (take n (drop i bytes)) ((i + n) % 2 ^ 32) (Lands-after n small fits)
            (omega arith))
  ]

  get_elem?-inside : (xs : List ℕ) (k : ℕ) → k < length xs → (c : ℕ) × (get_elem? xs k ≡ some c)
  get_elem?-inside [] k h = absurd (omega arith)
  get_elem?-inside (x ∷ xs) zero h = (x, refl)
  get_elem?-inside (x ∷ xs) (suc k) h = get_elem?-inside xs k (omega arith)

  pub pop_type_signature-Pops :
      Pops bytes i 1 (λ (k : Kind). Unit {0}) (pop_type_signature (reader bytes i))
  unfolding pop_type_signature load_type_signature
  pop_type_signature-Pops = elim (Bool-cases (ltb (available (reader bytes i)) 1)) [
    | inl short ↦ rw (short, pop_type_signature) (rejects i here)
    | inr guard ↦
        let (read, whole, fits) = read_guarded 1 guard in
        let (c, found) = get_elem?-inside bytes i (omega arith) in
        rw (guard, pop_type_signature, found, load_type_signature) (known (signature_type c) fits)
  ]
    where
      known :
          (o : Option Kind)
          → i + 1 ≤ length bytes
          → Pops bytes i 1
              (λ (k : Kind). Unit {0})
              (elim o [
                | none ↦ rejected (reader bytes i)
                | some type ↦ ok type (advance (reader bytes i) 1)
              ])
      known none fits = rejects i here
      known (some k) fits = returns k ((i + 1) % 2 ^ 32) (Lands-after 1 (omega arith) fits) tt
