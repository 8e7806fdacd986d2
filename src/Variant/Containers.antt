-- ===== src/Variant/Containers.antt =====
-- The std::list and the std::map of Variants (src/Variant.h), as far as src/ByteArraySerializer.cpp
-- builds them.
use Prim.Native.Nat.{Ordering}
use ucxx.Base.{arith, ◌≡◌, refl, ap, Option, none, some}
use ucxx.Variant.{Variant, VariantList, VariantMap, nil, cons, end, entry}
use ucxx.Variant.Keys.{
  Key, compare_keys, compare_keys-flip, compare_keys-flip_gt, compare_keys-eq, compare_keys_trans,
}

-- list.push_back(v)
unfoldable pub push_back : VariantList → Variant → VariantList
push_back nil v = cons v nil
push_back (cons w l) v = cons w (push_back l v)

-- map[key] = v: the entry of that key is overwritten, or a new one is put in its place in the
-- order.
unfoldable pub map_set : VariantMap → Key → Variant → VariantMap
map_set end k v = entry k v end
map_set (entry j w m) k v = elim (compare_keys k j) [
  | Ordering.lt ↦ entry k v (entry j w m)
  | Ordering.eq ↦ entry j v m
  | Ordering.gt ↦ entry j w (map_set m k v)
]

-- map.find(key)
unfoldable pub map_find : VariantMap → Key → Option Variant
map_find end k = none
map_find (entry j w m) k = elim (compare_keys k j) [ Ordering.eq ↦ some w | _ ↦ map_find m k ]

-- Every key of the map comes behind `k`.
abbrev pub KeyBefore : Key → VariantMap → Type 0
KeyBefore k end = Unit {0}
KeyBefore k (entry j w m) = (compare_keys k j ≡ Ordering.lt) × KeyBefore k m

-- The keys rise strictly, as std::map keeps them.
abbrev pub IsSorted : VariantMap → Type 0
IsSorted end = Unit {0}
IsSorted (entry k v m) = KeyBefore k m × IsSorted m

unfoldable pub join_lists : VariantList → VariantList → VariantList
join_lists nil l = l
join_lists (cons v k) l = cons v (join_lists k l)

pub join_lists-nil : (l : VariantList) → join_lists l nil ≡ l
unfolding join_lists
join_lists-nil nil = refl
join_lists-nil (cons v l) = ap (cons v) (join_lists-nil l)

pub join_lists-push_back :
    (k : VariantList) (v : Variant) (l : VariantList)
    → join_lists (push_back k v) l ≡ join_lists k (cons v l)
unfolding join_lists push_back
join_lists-push_back nil v l = refl
join_lists-push_back (cons w k) v l = ap (cons w) (join_lists-push_back k v l)

unfoldable pub join_maps : VariantMap → VariantMap → VariantMap
join_maps end m = m
join_maps (entry k v l) m = entry k v (join_maps l m)

pub join_maps-end : (m : VariantMap) → join_maps m end ≡ m
unfolding join_maps
join_maps-end end = refl
join_maps-end (entry k v m) = ap (entry k v) (join_maps-end m)

-- Every key of the first map comes before every key of the second.
abbrev pub Before : VariantMap → VariantMap → Type 0
Before end m = Unit {0}
Before (entry k v l) m = KeyBefore k m × Before l m

-- A key behind all others is put at the end.
pub map_set-last :
    (l : VariantMap) (k : Key) (v : Variant) (m : VariantMap)
    → Before l (entry k v m)
    → join_maps (map_set l k v) m ≡ join_maps l (entry k v m)
unfolding map_set join_maps
map_set-last end k v m h = refl
map_set-last (entry j w l) k v m h =
    rw (compare_keys-flip j k h.0.0, join_maps) (ap (entry j w) (map_set-last l k v m h.1))

pub Before-map_set :
    (l : VariantMap) (k : Key) (v : Variant) (m : VariantMap)
    → Before l (entry k v m)
    → KeyBefore k m
    → Before (map_set l k v) m
unfolding map_set
Before-map_set end k v m h b = (b, tt)
Before-map_set (entry j w l) k v m h b =
    rw (compare_keys-flip j k h.0.0, Before) (h.0.1, Before-map_set l k v m h.1 b)

pub KeyBefore-map_set :
    (j : Key) (m : VariantMap) (k : Key) (v : Variant)
    → KeyBefore j m
    → compare_keys j k ≡ Ordering.lt
    → KeyBefore j (map_set m k v)
unfolding map_set
KeyBefore-map_set j end k v h lt = (lt, tt)
KeyBefore-map_set j (entry i w m) k v h lt = ground (arith, KeyBefore-map_set j m k v h.1 lt)

pub KeyBefore-trans :
    (k j : Key) (m : VariantMap) → compare_keys k j ≡ Ordering.lt → KeyBefore j m → KeyBefore k m
KeyBefore-trans k j end lt h = tt
KeyBefore-trans k j (entry i w m) lt h =
    (compare_keys_trans k j i lt h.0, KeyBefore-trans k j m lt h.1)

-- Setting a key keeps the keys strictly rising.
pub map_set-IsSorted :
    (m : VariantMap) (k : Key) (v : Variant) → IsSorted m → IsSorted (map_set m k v)
unfolding map_set
map_set-IsSorted end k v h = (tt, tt)
map_set-IsSorted (entry j w m) k v h = ground (
  arith,
  KeyBefore-trans k j m,
  map_set-IsSorted m k v h.1,
  KeyBefore-map_set j m k v h.0,
  compare_keys-flip_gt k j,
)

-- After a key is set, it is found with the new value, and every other key as before.
pub map_find-map_set :
    (m : VariantMap) (k j : Key) (v : Variant)
    → map_find (map_set m k v) j
      ≡ elim (compare_keys j k) [ Ordering.eq ↦ some v | _ ↦ map_find m j ]
unfolding map_set map_find
map_find-map_set end k j v = refl
map_find-map_set (entry i w m) k j v = ground (
  arith,
  compare_keys-eq k i,
  compare_keys-eq j i,
  compare_keys-flip_gt k i,
  map_find-map_set m k j v,
)
