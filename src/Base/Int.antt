-- ===== src/Base/Int.antt =====
-- Signed integers over the native numbers, and the 32-bit `int` of the source.
use ucxx.Base.Tests.{ltb, if◌then◌else◌}
use Prim.Native.Nat.{ℕ, suc, ◌-◌, ◌%◌, ◌^◌, ◌<◌}
use mathlib.Core.Path.{◌≡◌, refl}
use mathlib.Core.Logic.{◌⊎◌, inl, inr}
use mathlib.Core.Bool.{Bool, true}
use native.Mathlib.Omega.{arith}

-- `negsuc n` is -(n + 1).
pub data ℤ : Type 0 where
  pos : ℕ → ℤ
  negsuc : ℕ → ℤ

-- The range of a 32-bit `int`.
abbrev pub fits_int : ℤ → Bool
fits_int (pos n) = ltb n (2 ^ 31)
fits_int (negsuc n) = ltb n (2 ^ 31)

-- Two's complement.
abbrev pub int_word : ℤ → ℕ
int_word (pos n) = n
int_word (negsuc n) = 2 ^ 32 - suc n

abbrev pub word_int : ℕ → ℤ
word_int w = if ltb w (2 ^ 31) then pos w else negsuc (2 ^ 32 - suc w)

-- A signed result of the system of 64 bits, as it is stored in an `int`: its low 32 bits.
abbrev pub to_int : ℤ → ℤ
to_int (pos n) = word_int (n % 2 ^ 32)
to_int (negsuc n) = word_int (2 ^ 32 - suc (n % 2 ^ 32))

pub to_int-fits : (n : ℕ) → n < 2 ^ 31 → to_int (pos n) ≡ pos n
to_int-fits n h = ground arith

pub word_int-int_word : (z : ℤ) → fits_int z ≡ true → word_int (int_word z) ≡ z
word_int-int_word (pos n) h = ground arith
word_int-int_word (negsuc n) h = ground arith

pub int_word-lt : (z : ℤ) → fits_int z ≡ true → int_word z < 2 ^ 32
int_word-lt (pos n) h = ground arith
int_word-lt (negsuc n) h = ground arith

pub fits_int-word_int : (w : ℕ) → w < 2 ^ 32 → fits_int (word_int w) ≡ true
fits_int-word_int w h = ground arith

pub ℤ-cases : (z : ℤ) → ((m : ℕ) × (z ≡ pos m)) ⊎ ((m : ℕ) × (z ≡ negsuc m))
ℤ-cases (pos m) = inl (m, refl)
ℤ-cases (negsuc m) = inr (m, refl)
