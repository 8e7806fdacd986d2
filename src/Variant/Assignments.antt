-- ===== src/Variant/Assignments.antt =====
-- A VariantMap that is built by assignments `map[key] = value` (src/Variant.h), as popMap of
-- src/ByteArraySerializer.cpp builds one.
use Prim.Native.Nat.{Ordering}
use ucxx.Base.{
  ◌≡◌, ◌↔◌, refl, sym, ap, ◌∙◌, arith, List, [], ◌∷◌, Option, none, some, inl, inr, ◌⊎◌, subst,
}
use ucxx.Variant.{Variant, VariantMap, end, entry}
use ucxx.Variant.Keys.{Key, compare_keys, compare_keys-flip_gt, compare_keys-eq}
use ucxx.Variant.Containers.{
  map_set, map_find, KeyBefore, IsSorted, KeyBefore-trans, map_set-IsSorted, map_find-map_set,
}

abbrev pub Assignments : Type 0
Assignments = List (Key × Variant)

-- The assignments in their order.
unfoldable pub assign_all : VariantMap → Assignments → VariantMap
assign_all m [] = m
assign_all m ((k, v) ∷ es) = assign_all (map_set m k v) es

-- The value that a key is given last, by the assignments alone.
unfoldable pub last_value : Assignments → Key → Option Variant
last_value [] k = none
last_value ((j, w) ∷ es) k = elim (last_value es k) [
  | some v ↦ some v
  | none ↦ elim (compare_keys k j) [ Ordering.eq ↦ some w | _ ↦ none ]
]

Ordering-split : (o : Ordering) → (o ≡ Ordering.lt) ⊎ ((o ≡ Ordering.gt) ⊎ (o ≡ Ordering.eq))
Ordering-split Ordering.lt = inl refl
Ordering-split Ordering.gt = inr (inl refl)
Ordering-split Ordering.eq = inr (inr refl)

compare_keys_refl : (k : Key) → compare_keys k k ≡ Ordering.eq
unfolding compare_keys
compare_keys_refl [] = refl
compare_keys_refl (c ∷ k) = ground (arith, compare_keys_refl k)

pub KeyBefore-absent : (k : Key) (m : VariantMap) → KeyBefore k m → map_find m k ≡ none
unfolding map_find
KeyBefore-absent k end h = refl
KeyBefore-absent k (entry j w m) h = rw (h.0, map_find) (KeyBefore-absent k m h.1)

map_find-first : (k : Key) (v : Variant) (m : VariantMap) → map_find (entry k v m) k ≡ some v
unfolding map_find
map_find-first k v m = rw (compare_keys_refl k, map_find)

-- A key that comes before the first of a map is not there.
absent :
    (j k : Key) (v : Variant) (n : VariantMap)
    → compare_keys j k ≡ Ordering.lt
    → KeyBefore k n
    → map_find (entry k v n) j ≡ none
absent j k v n lt h = KeyBefore-absent j (entry k v n) (lt, KeyBefore-trans j k n lt h)

-- Behind the same first entry the maps give the same values too.
same_behind :
    (k i : Key) (v w : Variant) (m n : VariantMap)
    → KeyBefore k m
    → KeyBefore k n
    → map_find (entry k v m) i ≡ map_find (entry k w n) i
    → map_find m i ≡ map_find n i
unfolding map_find
same_behind k i v w m n h l same = elim (Ordering-split (compare_keys i k)) [
  | inr (inr is_eq) ↦
      rw (compare_keys-eq i k is_eq) (KeyBefore-absent k m h ∙ sym (KeyBefore-absent k n l))
  | inl lt ↦ ground arith
  | inr (inl gt) ↦ ground arith
]

-- Two maps with the keys in their order that give the same value for each key are the same.
pub map-ext :
    (m n : VariantMap) → IsSorted m → IsSorted n → ((k : Key) → map_find m k ≡ map_find n k) → m ≡ n
unfolding map_find
map-ext end end s t same = refl
map-ext end (entry k v n) s t same = absurd (ground (arith, same k, compare_keys_refl k))
map-ext (entry j w m) end s t same = absurd (ground (arith, same j, compare_keys_refl j))
map-ext (entry j w m) (entry k v n) s t same = elim (Ordering-split (compare_keys j k)) [
  | inl lt ↦ absurd (cc (same j, map_find-first j w m, absent j k v n lt t.0))
  | inr (inl gt) ↦
      absurd (cc (same k, map_find-first k v n, absent k j w m (compare_keys-flip_gt j k gt) s.0))
  | inr (inr eq) ↦
      let keys : j ≡ k = compare_keys-eq j k eq in
      let before : KeyBefore k m = subst (λ (i : Key). KeyBefore i m) keys s.0 in
      let at : (i : Key) → map_find (entry k w m) i ≡ map_find (entry k v n) i =
        subst (λ (x : Key). (i : Key) → map_find (entry x w m) i ≡ map_find (entry k v n) i) keys
          same in
      let values : w ≡ v = cc (at k, map_find-first k w m, map_find-first k v n) in
      let rest : m ≡ n = map-ext m n s.1 t.1 (λ i. same_behind k i w v m n before t.0 (at i)) in
      rw (keys, values, rest)
]

pub assign_all-IsSorted :
    (m : VariantMap) (es : Assignments) → IsSorted m → IsSorted (assign_all m es)
unfolding assign_all
assign_all-IsSorted m [] h = h
assign_all-IsSorted m ((k, v) ∷ es) h =
    assign_all-IsSorted (map_set m k v) es (map_set-IsSorted m k v h)

-- A key has the value that it was given last, or the one that it had in the map.
pub map_find-assign_all :
    (m : VariantMap) (es : Assignments) (k : Key)
    → map_find (assign_all m es) k
      ≡ elim (last_value es k) [ some v ↦ some v | none ↦ map_find m k ]
unfolding assign_all last_value
map_find-assign_all m [] k = refl
map_find-assign_all m ((j, w) ∷ es) k =
    ground (arith, map_find-assign_all (map_set m j w) es k, map_find-map_set m j k w)

-- The same keys, with the same values at last.
abbrev pub SameLast : Assignments → Assignments → Type 0
SameLast es fs = (k : Key) → last_value es k ≡ last_value fs k

pub map_find-fresh : (es : Assignments) (k : Key) → map_find (assign_all end es) k ≡ last_value es k
unfolding map_find
map_find-fresh es k = ground (arith, map_find-assign_all end es k)

-- Whatever their order, assignments that end in the same values make the same map.
pub assign_all-SameLast :
    (es fs : Assignments) → (assign_all end es ≡ assign_all end fs) ↔ SameLast es fs
assign_all-SameLast es fs = (
  λ same k.
      sym (map_find-fresh es k) ∙ ap (λ (m : VariantMap). map_find m k) same ∙ map_find-fresh fs k,
  λ same.
      map-ext (assign_all end es) (assign_all end fs) (assign_all-IsSorted end es tt)
        (assign_all-IsSorted end fs tt)
        (λ k. map_find-fresh es k ∙ same k ∙ sym (map_find-fresh fs k)),
)
