-- ===== src/ByteArray.antt =====
-- src/ByteArray.h, src/ByteArray.cpp: a growable array of bytes over std::vector<char>.
pub mod Laws
mod Tests
use ucxx.Base.{
  ℕ, ◌+◌, ◌≤◌, List, [], ◌∷◌, ◌++◌, Option, none, some, Bool, if◌then◌else◌, leb, length, get_elem?,
  set, take, drop, ◌==◌,
}
use ucxx.Base.Int.{ℤ, pos, negsuc}

pub record ByteArray : Type 0 where
  pub bytes : List ℕ

-- A pointer to characters is the list of the characters that may be read from it.
-- `none` is undefined behaviour: the source checks no bounds.
abbrev pub read_buffer : List ℕ → ℕ → Option (List ℕ)
read_buffer buffer size = if leb size (length buffer) then some (take size buffer) else none

abbrev pub empty : ByteArray
empty = record { bytes = [] }

-- ByteArray(const std::string &): the string's characters, not its terminator.
unfoldable pub from_string : List ℕ → ByteArray
from_string str = record { bytes = take (length str) str }

-- ByteArray(const char *, size_t)
unfoldable pub from_buffer : List ℕ → ℕ → Option ByteArray
from_buffer buffer size = elim (read_buffer buffer size) [
  | none ↦ none
  | some bs ↦ some (record { bytes = bs })
]

-- ByteArray(const std::vector<char> &)
unfoldable pub from_vector : List ℕ → ByteArray
from_vector v = record { bytes = v }

-- The copy constructor, and the assignment, which leaves an array assigned to itself alone.
unfoldable pub copy : ByteArray → ByteArray
copy ba = record { bytes = ba.bytes }

unfoldable pub assign : Bool → ByteArray → ByteArray → ByteArray
assign same this ba = if same then this else record this { bytes = ba.bytes }

unfoldable pub size : ByteArray → ℕ
size ba = length ba.bytes

unfoldable pub is_empty : ByteArray → Bool
unfolding size
is_empty ba = size ba == 0

-- append(char)
unfoldable pub append_byte : ByteArray → ℕ → ByteArray
append_byte ba b = record ba { bytes = ba.bytes ++ b ∷ [] }

-- append(const ByteArray &), of another array: inserting a vector's own range is undefined.
unfoldable pub append_array : ByteArray → ByteArray → ByteArray
append_array this ba = record this { bytes = this.bytes ++ ba.bytes }

-- append(const char *, size_t)
unfoldable pub append_buffer : ByteArray → List ℕ → ℕ → Option ByteArray
append_buffer ba buffer size = elim (read_buffer buffer size) [
  | none ↦ none
  | some bs ↦ some (record ba { bytes = ba.bytes ++ bs })
]

-- append(const std::string &)
unfoldable pub append_string : ByteArray → List ℕ → Option ByteArray
unfolding append_buffer
append_string ba str = append_buffer ba str (length str)

unfoldable pub clear : ByteArray → ByteArray
clear ba = record ba { bytes = [] }

-- operator [], read and written through the reference that it returns. A negative index is
-- converted to a huge unsigned one, and so out of bounds.
unfoldable pub get : ByteArray → ℤ → Option ℕ
get ba (pos i) = get_elem? ba.bytes i
get ba (negsuc i) = none

unfoldable pub put : ByteArray → ℤ → ℕ → Option ByteArray
put ba (pos i) b =
    if leb (i + 1) (length ba.bytes) then some (record ba { bytes = set ba.bytes i b }) else none
put ba (negsuc i) b = none

-- slice(int, size_t): the iterators must stay within the vector.
unfoldable pub slice : ByteArray → ℤ → ℕ → Option ByteArray
unfolding from_vector
slice ba (pos begin) size =
    if leb (begin + size) (length ba.bytes)
    then some (from_vector (take size (drop begin ba.bytes)))
    else none
slice ba (negsuc begin) size = none

-- constData(), moved on by `offset` characters: what may be read from there.
unfoldable pub const_data : ByteArray → ℕ → List ℕ
const_data ba offset = drop offset ba.bytes
