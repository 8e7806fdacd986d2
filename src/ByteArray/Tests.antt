-- ===== src/ByteArray/Tests.antt =====
-- Runs of src/ByteArray.cpp, and the laws at concrete arrays.
use ucxx.Base.{◌≡◌, refl, [], ◌∷◌, ◌++◌, none, some, true, false, codes}
use ucxx.Base.Int.{pos, negsuc}
use ucxx.ByteArray.{
  ByteArray, from_buffer, from_vector, copy, assign, is_empty, size, append_byte, clear, get, put,
  slice,
}

abbrev hello : ByteArray
hello = record { bytes = codes "hello" }

abbrev ell : ByteArray
ell = record { bytes = codes "ell" }

runs :
    (slice hello (pos 1) 3 ≡ some ell)
    × (slice hello (pos 3) 3 ≡ none)
    × (slice hello (negsuc 0) 1 ≡ none)
    × (get hello (pos 5) ≡ none)
    × (put ell (pos 1) 0 ≡ some (record { bytes = b'e' ∷ 0 ∷ b'l' ∷ [] }))
    × (from_buffer (codes "hello") 6 ≡ none)
    × (is_empty (clear hello) ≡ true)
    × (append_byte (copy ell) 0 ≡ assign false hello (record { bytes = codes "ell" ++ 0 ∷ [] }))
unfolding slice get put from_buffer from_vector is_empty size clear append_byte copy assign
runs = (refl, refl, refl, refl, refl, refl, refl, refl)
