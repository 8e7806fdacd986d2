-- ===== src/Serializer/State.antt =====
-- src/ByteArraySerializer.h: the object, and what a reading function does with it.
use ucxx.Base.{ℕ, ◌+◌, ◌-◌, ◌%◌, ◌^◌}
use ucxx.ByteArray
use ucxx.ByteArray.{ByteArray}

-- `index` is m_index, an unsigned of 32 bits.
pub record Serializer : Type 0 where
  pub byte_array : ByteArray
  pub index : ℕ

-- A read outside the buffer, and a byte that stands for no value of the type that is read.
pub data Fault : Type 0 where
  out_of_bounds no_value : Fault

-- A pop function returns true with a value, or false (`rejected`); both leave a new state. The rest
-- are undefined behaviour and, in the model only, a recursion that is given too little fuel.
pub data Outcome (A : Type 0) : Type 0 where
  ok : A → Serializer → Outcome A
  rejected : Serializer → Outcome A
  fault : Fault → Outcome A
  out_of_fuel : Outcome A

abbrev pub Pop : Type 0 → Type 0
Pop A = Serializer → Outcome A

abbrev pub pure : {A : Type 0} → A → Pop A
pure a s = ok a s

abbrev pub reject : {A : Type 0} → Pop A
reject s = rejected s

abbrev pub and_then : {A B : Type 0} → Outcome A → (A → Pop B) → Outcome B
and_then (ok a s) f = f a s
and_then (rejected s) f = rejected s
and_then (fault e) f = fault e
and_then out_of_fuel f = out_of_fuel

infixl 5 ◌>>=◌
abbrev pub ◌>>=◌ : {A B : Type 0} → Pop A → (A → Pop B) → Pop B
p >>= f = λ s. and_then (p s) f

-- `m_byteArray.size() - m_index`, in size_t.
unfoldable pub available : Serializer → ℕ
unfolding ByteArray.size
available s = (ByteArray.size s.byte_array + 2 ^ 64 - s.index) % 2 ^ 64

-- `m_index += n`
abbrev pub advance : Serializer → ℕ → Serializer
advance s n = record s { index = (s.index + n) % 2 ^ 32 }

-- ByteArraySerializer(const ByteArray &), initWith() and reset(). The default constructor is the
-- first of an empty array.
unfoldable pub init_with : ByteArray → Serializer
init_with ba = record { byte_array = ba; index = 0 }

unfoldable pub reset : Serializer → Serializer
reset s = record s { index = 0 }
