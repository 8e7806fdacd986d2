-- ===== src/Serializer/Raw.antt =====
-- src/ByteArraySerializer.cpp: pushRawValue and popRawValue, templates over a type `T` that is
-- copied as the bytes it has in memory (little endian; an int has 4 bytes, a double 8).
use ucxx.Base.{
  ℕ, ◌<◌, ◌≡◌, ◌^◌, refl, subst, List, [], ◌∷◌, Option, none, some, Bool, true, false, arith, ltb,
  length, All, if◌then◌else◌, ◌==◌,
}
use ucxx.Base.Int.{
  ℤ, fits_int, int_word, word_int, word_int-int_word, int_word-lt, fits_int-word_int,
}
use ucxx.Base.Words.{
  IsByte, le_bytes, of_le_bytes, length-le_bytes, le_bytes-IsByte, of_le_bytes-le_bytes,
  of_le_bytes-lt,
}
use ucxx.ByteArray
use ucxx.ByteArray.{read_buffer}
use ucxx.Serializer.State.{ok, rejected, fault, out_of_bounds, no_value, Pop, available, advance}

-- How a `T` lies in memory. `fits` holds of the values of `T` among those of the type that models
-- it.
pub record Raw (T : Type 0) : Type 0 where
  pub size : ℕ
  pub encode : T → List ℕ
  pub decode : List ℕ → Option T
  pub fits : T → Bool
  pub length-encode : (v : T) → length (encode v) ≡ size
  pub encode-IsByte : (v : T) → All IsByte (encode v)
  pub decode-encode : (v : T) → fits v ≡ true → decode (encode v) ≡ some v
  pub fits-decode :
      (bs : List ℕ) (v : T) → length bs ≡ size → All IsByte bs → decode bs ≡ some v → fits v ≡ true

-- bool: one byte, 0 or 1; another byte is no value.
abbrev pub encode_bool : Bool → List ℕ
encode_bool b = (if b then 1 else 0) ∷ []

abbrev pub decode_bool : List ℕ → Option Bool
decode_bool [] = none
decode_bool (b ∷ bs) = if b == 0 then some false else if b == 1 then some true else none

pub encode_bool-IsByte : (b : Bool) → All IsByte (encode_bool b)
encode_bool-IsByte b = ground arith

pub decode_bool-encode_bool : (b : Bool) → true ≡ true → decode_bool (encode_bool b) ≡ some b
decode_bool-encode_bool true h = refl
decode_bool-encode_bool false h = refl

instance abbrev pub raw_bool : Raw Bool
raw_bool = record {
  size = 1;
  encode = encode_bool;
  decode = decode_bool;
  fits = λ _. true;
  length-encode = λ _. refl;
  encode-IsByte = encode_bool-IsByte;
  decode-encode = decode_bool-encode_bool;
  fits-decode = λ _ _ _ _ _. refl;
}

-- A word of `n` bytes.
module _ (n : ℕ) where
  pub decode_word : (v : ℕ) → ltb v (256 ^ n) ≡ true → some (of_le_bytes (le_bytes n v)) ≡ some v
  decode_word v h = ground (arith, of_le_bytes-le_bytes n v)

  pub word_fits :
      (bs : List ℕ) (v : ℕ)
      → length bs ≡ n
      → All IsByte bs
      → some (of_le_bytes bs) ≡ some v
      → ltb v (256 ^ n) ≡ true
  word_fits bs v e h d = ground (arith, of_le_bytes-lt bs h)

  abbrev pub raw_word : Raw ℕ
  raw_word = record {
    size = n;
    encode = le_bytes n;
    decode = λ bs. some (of_le_bytes bs);
    fits = λ v. ltb v (256 ^ n);
    length-encode = length-le_bytes n;
    encode-IsByte = le_bytes-IsByte n;
    decode-encode = decode_word;
    fits-decode = word_fits;
  }

abbrev pub raw_unsigned : Raw ℕ
raw_unsigned = raw_word 4

abbrev pub raw_double : Raw ℕ
raw_double = raw_word 8

-- int, in two's complement
pub decode_int-encode_int :
    (z : ℤ) → fits_int z ≡ true → some (word_int (of_le_bytes (le_bytes 4 (int_word z)))) ≡ some z
decode_int-encode_int z h =
    rw (of_le_bytes-le_bytes 4 (int_word z) (int_word-lt z h), word_int-int_word z h)

pub int_fits :
    (bs : List ℕ) (z : ℤ)
    → length bs ≡ 4
    → All IsByte bs
    → some (word_int (of_le_bytes bs)) ≡ some z
    → fits_int z ≡ true
int_fits bs z e h d =
    let small : of_le_bytes bs < 256 ^ 4 =
      subst (λ (n : ℕ). of_le_bytes bs < 256 ^ n) e (of_le_bytes-lt bs h) in
    let same : word_int (of_le_bytes bs) ≡ z = cc d in
    subst (λ z. fits_int z ≡ true) same (fits_int-word_int (of_le_bytes bs) small)

instance abbrev pub raw_int : Raw ℤ
raw_int = record {
  size = 4;
  encode = λ z. le_bytes 4 (int_word z);
  decode = λ bs. some (word_int (of_le_bytes bs));
  fits = fits_int;
  length-encode = λ z. length-le_bytes 4 (int_word z);
  encode-IsByte = λ z. le_bytes-IsByte 4 (int_word z);
  decode-encode = decode_int-encode_int;
  fits-decode = int_fits;
}

module _ {T : Type 0} ⦃r : Raw T⦄ where
  -- The value is stored into a buffer of sizeof(T) characters, which is appended.
  unfoldable pub push_raw_value : T → ByteArray.ByteArray → Option ByteArray.ByteArray
  push_raw_value value ba = ByteArray.append_buffer ba (r.encode value) r.size

  -- The read itself, when the guard has let it pass.
  unfoldable pub load_raw_value : Pop T
  load_raw_value s = elim (read_buffer (ByteArray.const_data s.byte_array s.index) r.size) [
    | none ↦ fault out_of_bounds
    | some bs ↦ elim (r.decode bs) [ none ↦ fault no_value | some v ↦ ok v (advance s r.size) ]
  ]

  unfoldable pub pop_raw_value : Pop T
  pop_raw_value s = if ltb (available s) r.size then rejected s else load_raw_value s
