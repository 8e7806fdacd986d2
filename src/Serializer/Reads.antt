-- ===== src/Serializer/Reads.antt =====
-- The functions of src/ByteArraySerializer.cpp that read, at a place in the array.
use ucxx.Base.{
  ℕ, ◌+◌, ◌%◌, ◌<◌, ◌^◌, ◌≡◌, refl, sym, ap, subst, ◌∙◌, List, [], ◌∷◌, ◌++◌, some, true,
  append_assoc, append-nil, arith, length, length-append, drop-append, take-append,
  get_elem?-append,
}
use ucxx.ByteArray
use ucxx.ByteArray.{read_buffer}
use ucxx.Serializer.State.{Serializer, Pop, pure, ok, available, advance, ◌>>=◌, and_then}
use ucxx.Serializer.Raw.{Raw, pop_raw_value, load_raw_value}
use ucxx.Serializer.Signature.{
  type_signature, signature_type, pop_type_signature, load_type_signature,
}
use ucxx.Serializer.Pop.{pop_text, load_text}
use ucxx.Variant.{Kind}

abbrev pub reader : List ℕ → ℕ → Serializer
reader bytes index = record { byte_array = record { bytes = bytes }; index = index }

-- The index stands between `before` and `rest`.
abbrev pub at : List ℕ → List ℕ → Serializer
at before rest = reader (before ++ rest) (length before)

-- `p` takes `bytes` off the front of what is left to read, and returns `a`; the array is shorter
-- than 2^32 bytes.
abbrev pub Reads : {A : Type 0} → Pop A → List ℕ → A → Type 0
Reads {A} p bytes a =
    (before rest : List ℕ)
    → length (before ++ (bytes ++ rest)) < 2 ^ 32
    → p (at before (bytes ++ rest)) ≡ ok a (at (before ++ bytes) rest)

pub Reads-bind :
    {A B : Type 0} (p : Pop A) (f : A → Pop B) (xs ys : List ℕ) {a : A} {b : B}
    → Reads p xs a
    → Reads (f a) ys b
    → Reads (p >>= f) (xs ++ ys) b
Reads-bind p f xs ys {a} {b} hp hf before rest small =
    ap (λ (x : List ℕ). and_then (p (at before x)) f) (append_assoc xs ys rest)
    ∙ ap (λ o. and_then o f) (hp before (ys ++ rest) first)
    ∙ hf (before ++ xs) rest second
    ∙ ap
        (λ (x : List ℕ).
          ok b (record { byte_array = record { bytes = x ++ rest }; index = length x }))
        (append_assoc before xs ys)
  where
    first : length (before ++ (xs ++ (ys ++ rest))) < 2 ^ 32
    first = subst (λ (x : List ℕ). length (before ++ x) < 2 ^ 32) (append_assoc xs ys rest) small

    second : length ((before ++ xs) ++ (ys ++ rest)) < 2 ^ 32
    second =
        subst (λ (x : List ℕ). length x < 2 ^ 32) (sym (append_assoc before xs (ys ++ rest))) first

-- The same with the array cut behind what is read.
pub Reads-assoc :
    {A : Type 0} (p : Pop A) (xs : List ℕ) {a : A}
    → Reads p xs a
    → (before rest : List ℕ) → length ((before ++ xs) ++ rest) < 2 ^ 32
    → p (reader ((before ++ xs) ++ rest) (length before)) ≡ ok a (at (before ++ xs) rest)
Reads-assoc p xs {a} h before rest =
    subst
      (λ (b : List ℕ).
        length b < 2 ^ 32 → p (reader b (length before)) ≡ ok a (at (before ++ xs) rest))
      (sym (append_assoc before xs rest)) (h before rest)

-- Nothing is read.
pub Reads-pure : {A : Type 0} (a : A) → Reads (pure a) [] a
Reads-pure a before rest small =
    ap
      (λ (x : List ℕ).
        ok a (record { byte_array = record { bytes = before ++ rest }; index = length x }))
      (sym (append-nil before))
    ∙ ap
        (λ (x : List ℕ).
          ok a
            (record { byte_array = record { bytes = x ++ rest }; index = length (before ++ []) }))
        (sym (append-nil before))

pub available-at :
    (before rest : List ℕ)
    → length (before ++ rest) < 2 ^ 32
    → available (at before rest) ≡ length rest
unfolding available ByteArray.size
available-at before rest small = omega (arith, length-append before rest)

read_front : (xs rest : List ℕ) (n : ℕ) → length xs ≡ n → read_buffer (xs ++ rest) n ≡ some xs
read_front xs rest n e =
    ap (read_buffer (xs ++ rest)) (sym e)
    ∙ ground (arith, length-append xs rest, take-append xs rest)

const_data-at :
    (before rest : List ℕ) → ByteArray.const_data (at before rest).byte_array (length before) ≡ rest
unfolding ByteArray.const_data
const_data-at before rest = drop-append before rest

-- The index behind the bytes that were read.
advance-at :
    (before xs rest : List ℕ) (n : ℕ)
    → length xs ≡ n
    → length (before ++ (xs ++ rest)) < 2 ^ 32
    → advance (at before (xs ++ rest)) n ≡ at (before ++ xs) rest
advance-at before xs rest n e small = λ i. record {
  byte_array = record { bytes = sym (append_assoc before xs rest) i };
  index = index i;
}
  where
    index : (length before + n) % 2 ^ 32 ≡ length (before ++ xs)
    index =
        omega
          (arith, length-append before xs, length-append before (xs ++ rest), length-append xs rest)

module _ {T : Type 0} (r : Raw T) (v : T) (fit : r.fits v ≡ true) where
  load_raw-Reads : Reads (load_raw_value ⦃r = r⦄) (r.encode v) v
  unfolding load_raw_value
  load_raw-Reads before rest small =
      rw
        (
          const_data-at before (r.encode v ++ rest),
          read_front (r.encode v) rest r.size (r.length-encode v),
          r.decode-encode v fit,
          load_raw_value,
        )
        (ap (ok v) (advance-at before (r.encode v) rest r.size (r.length-encode v) small))

  pub pop_raw-Reads : Reads (pop_raw_value ⦃r = r⦄) (r.encode v) v
  unfolding pop_raw_value
  pop_raw-Reads before rest small = ground (
    arith,
    available-at before (r.encode v ++ rest) small,
    length-append (r.encode v) rest,
    r.length-encode v,
    load_raw-Reads before rest small,
  )

load_text-Reads : (text : List ℕ) → Reads (load_text (length text)) text text
unfolding load_text
load_text-Reads text before rest small =
    rw (const_data-at before (text ++ rest), read_front text rest (length text) refl, load_text)
      (ap (ok text) (advance-at before text rest (length text) refl small))

pub pop_text-Reads : (text : List ℕ) → Reads (pop_text (length text)) text text
unfolding pop_text
pop_text-Reads text before rest small = ground (
  arith,
  available-at before (text ++ rest) small,
  length-append text rest,
  load_text-Reads text before rest small,
)

signature_type-type_signature :
    (k : Kind) (c : ℕ) → type_signature k ≡ some c → signature_type c ≡ some k
unfolding type_signature signature_type
signature_type-type_signature k c h = ground arith

pub pop_type_signature-Reads :
    (k : Kind) (c : ℕ) → type_signature k ≡ some c → Reads pop_type_signature (c ∷ []) k
unfolding pop_type_signature load_type_signature
pop_type_signature-Reads k c h before rest small = ground (
  arith,
  available-at before (c ∷ rest) small,
  get_elem?-append before c rest,
  signature_type-type_signature k c h,
  advance-at before (c ∷ []) rest 1 refl small,
)
