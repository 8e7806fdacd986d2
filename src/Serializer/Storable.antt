-- ===== src/Serializer/Storable.antt =====
-- Which values src/ByteArraySerializer.cpp can store, and how deeply a value is nested.
use Prim.Native.Nat.{max}
use ucxx.Base.{
  ℕ, suc, ◌<◌, ◌≤◌, ◌^◌, ◌%◌, ◌≡◌, refl, ap, ◌++◌, List, true, arith, ltb, length, length-append,
}
use ucxx.Base.Int.{fits_int}
use ucxx.Base.Words.{length-le_bytes}
use ucxx.Serializer.Push.{list_size, map_size}
use ucxx.Serializer.Encode.{encode, encode_items, encode_entries, encode_text, word32}
use ucxx.Variant.{
  Variant, VariantList, VariantMap, integer, real, string, list, map, max_types, nil, cons, end,
  entry,
}
use ucxx.Variant.Keys.{Key, compare_keys-flip_gt}
use ucxx.Variant.Containers.{KeyBefore, KeyBefore-trans, KeyBefore-map_set, push_back, map_set}

-- The numbers are in the range of their C++ types, no text, list or map has 2^32 elements or more,
-- the keys of each map rise strictly, and the type is one of the eight.
unfoldable mutual
  pub IsStorable : Variant → Type 0
  IsStorable (integer i) = fits_int i ≡ true
  IsStorable (real r) = ltb r (256 ^ 8) ≡ true
  IsStorable (string s) = length s < 2 ^ 32
  IsStorable (list l) = (list_size l < 2 ^ 32) × AreStorable l
  IsStorable (map m) = (map_size m < 2 ^ 32) × AreEntriesStorable m
  IsStorable max_types = ⊥
  IsStorable _ = Unit {0}

  pub AreStorable : VariantList → Type 0
  AreStorable nil = Unit {0}
  AreStorable (cons v l) = IsStorable v × AreStorable l

  pub AreEntriesStorable : VariantMap → Type 0
  AreEntriesStorable end = Unit {0}
  AreEntriesStorable (entry k v m) =
      (length k < 2 ^ 32) × IsStorable v × KeyBefore k m × AreEntriesStorable m

unfoldable mutual
  pub depth : Variant → ℕ
  depth (list l) = suc (depth_items l)
  depth (map m) = suc (depth_entries m)
  depth _ = 0

  pub depth_items : VariantList → ℕ
  depth_items nil = 0
  depth_items (cons v l) = max (depth v) (depth_items l)

  -- A key is a Variant of its own in the array, of depth 0.
  pub depth_entries : VariantMap → ℕ
  depth_entries end = 0
  depth_entries (entry k v m) = max (depth v) (depth_entries m)

word32_pos : (n : ℕ) → 0 < length (word32 n)
word32_pos n = omega (arith, length-le_bytes 4 (n % 2 ^ 32))

tail_lt : (xs ys : List ℕ) (n : ℕ) → 0 < length xs → n ≤ length ys → suc n < suc (length (xs ++ ys))
tail_lt xs ys n pos h = omega (arith, length-append xs ys)

mutual
  unfolding depth encode

  depth-lt : (v : Variant) → depth v < length (encode v)
  depth-lt (list l) =
      tail_lt (word32 (list_size l)) (encode_items l) _ (word32_pos _) (depth_items-le l)
  depth-lt (map m) =
      tail_lt (word32 (map_size m)) (encode_entries m) _ (word32_pos _) (depth_entries-le m)
  depth-lt _ = omega arith

  depth_items-le : (l : VariantList) → depth_items l ≤ length (encode_items l)
  depth_items-le nil = omega arith
  depth_items-le (cons v l) =
      omega (arith, depth-lt v, depth_items-le l, length-append (encode v) (encode_items l))

  depth_entries-le : (m : VariantMap) → depth_entries m ≤ length (encode_entries m)
  depth_entries-le end = omega arith
  depth_entries-le (entry k v m) = omega (
    arith,
    depth-lt v,
    depth_entries-le m,
    length-append (encode_text k) (encode v ++ encode_entries m),
    length-append (encode v) (encode_entries m),
  )

-- Each level of nesting is written with a byte at least.
pub depth-encode : (v : Variant) → depth v < length (encode v)
depth-encode = depth-lt

pub list_size-push_back :
    (l : VariantList) (v : Variant) → list_size (push_back l v) ≡ suc (list_size l)
unfolding list_size push_back
list_size-push_back nil v = refl
list_size-push_back (cons w l) v = ap suc (list_size-push_back l v)

pub push_back-AreStorable :
    (l : VariantList) (v : Variant) → AreStorable l → IsStorable v → AreStorable (push_back l v)
unfolding AreStorable push_back
push_back-AreStorable nil v h hv = (hv, tt)
push_back-AreStorable (cons w l) v h hv = (h.0, push_back-AreStorable l v h.1 hv)

pub map_size-map_set :
    (m : VariantMap) (k : Key) (v : Variant) → map_size (map_set m k v) ≤ suc (map_size m)
unfolding map_size map_set
map_size-map_set end k v = omega arith
map_size-map_set (entry j w m) k v = ground (arith, map_size-map_set m k v)

pub map_set-AreEntriesStorable :
    (m : VariantMap) (k : Key) (v : Variant)
    → AreEntriesStorable m
    → length k < 2 ^ 32
    → IsStorable v
    → AreEntriesStorable (map_set m k v)
unfolding AreEntriesStorable map_set
map_set-AreEntriesStorable end k v h hk hv = (hk, hv, tt, tt)
map_set-AreEntriesStorable (entry j w m) k v h hk hv = ground (
  arith,
  KeyBefore-trans k j m,
  KeyBefore-map_set j m k v h.2,
  compare_keys-flip_gt k j,
  map_set-AreEntriesStorable m k v h.3 hk hv,
)
