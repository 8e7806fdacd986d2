-- ===== src/ByteArray/Laws.antt =====
-- src/ByteArray.cpp: the operations together.
use ucxx.Base.{
  ℕ, zero, suc, ◌+◌, ◌-◌, ◌<◌, ◌≡◌, refl, List, [], ◌∷◌, ◌++◌, some, arith, ltb, if◌then◌else◌,
  length, get_elem?, take, drop,
}
use ucxx.Base.Int.{pos}
use ucxx.ByteArray.{ByteArray, append_array, append_buffer, get, slice, size}

pub take-all : (xs : List ℕ) → take (length xs) xs ≡ xs
take-all [] = refl
take-all (x ∷ xs) = rw (take-all xs)

pub append_buffer-all :
    (ba : ByteArray) (buffer : List ℕ)
    → append_buffer ba buffer (length buffer) ≡ some (record { bytes = ba.bytes ++ buffer })
unfolding append_buffer
append_buffer-all ba buffer = ground (arith, take-all buffer)

get_elem?-append_cases :
    (xs ys : List ℕ) (i : ℕ)
    → get_elem? (xs ++ ys) i
      ≡ (if ltb i (length xs) then get_elem? xs i else get_elem? ys (i - length xs))
get_elem?-append_cases [] ys i = ground arith
get_elem?-append_cases (x ∷ xs) ys zero = ground arith
get_elem?-append_cases (x ∷ xs) ys (suc i) = ground (arith, get_elem?-append_cases xs ys i)

-- An appended array keeps its bytes, and the other's follow them: every index, out of bounds too.
pub get-append_array :
    (a b : ByteArray) (i : ℕ)
    → get (append_array a b) (pos i)
      ≡ (if ltb i (size a) then get a (pos i) else get b (pos (i - size a)))
unfolding get append_array size
get-append_array a b i = get_elem?-append_cases a.bytes b.bytes i

get_elem?-drop : (n i : ℕ) (xs : List ℕ) → get_elem? (drop n xs) i ≡ get_elem? xs (n + i)
get_elem?-drop zero i xs = ground arith
get_elem?-drop (suc n) i [] = ground arith
get_elem?-drop (suc n) i (x ∷ xs) = ground (arith, get_elem?-drop n i xs)

get_elem?-take : (n i : ℕ) (xs : List ℕ) → i < n → get_elem? (take n xs) i ≡ get_elem? xs i
get_elem?-take zero i xs h = absurd (omega arith)
get_elem?-take (suc n) i [] h = refl
get_elem?-take (suc n) zero (x ∷ xs) h = refl
get_elem?-take (suc n) (suc i) (x ∷ xs) h = get_elem?-take n i xs (omega arith)

-- A slice that is in bounds holds the bytes of the array from `begin` on.
pub get-slice :
    (ba s : ByteArray) (begin n i : ℕ)
    → slice ba (pos begin) n ≡ some s
    → i < n
    → get s (pos i) ≡ get ba (pos (begin + i))
unfolding get slice
get-slice ba s begin n i h lt =
    ground (arith, get_elem?-take n i (drop begin ba.bytes), get_elem?-drop begin i ba.bytes)

split_list : (n : ℕ) (xs : List ℕ) → take n xs ++ take (length xs - n) (drop n xs) ≡ xs
split_list zero xs = ground (arith, take-all xs)
split_list (suc n) [] = ground arith
split_list (suc n) (x ∷ xs) = ground (arith, split_list n xs)

-- Cutting an array in two at any position and appending the second slice to the first gives the
-- array back.
pub append_array-slices :
    (ba a b : ByteArray) (n : ℕ)
    → slice ba (pos 0) n ≡ some a
    → slice ba (pos n) (size ba - n) ≡ some b
    → append_array a b ≡ ba
unfolding slice append_array size
append_array-slices ba a b n ha hb = ground (arith, split_list n ba.bytes)
