-- ===== src/Variant/MapView.antt =====
-- A VariantMap (src/Variant.h) as a client sees it: the values that keys were given last, with no
-- order of the assignments and no order of the keys.
use Prim.Native.Nat.{Ordering}
use mathlib.Core.Path.{fun_ext}
use mathlib.Core.Quot
use mathlib.Core.Quot.{Quot, Quot-set}
use ucxx.Base.{◌≡◌, ◌≢◌, refl, sym, ◌∙◌, arith, [], ◌∷◌, ◌++◌, some, Option, sym}
use ucxx.Variant.{Variant, VariantMap, end, entry}
use ucxx.Variant.Keys.{Key, compare_keys, compare_keys-eq}
use ucxx.Variant.Containers.{map_find, IsSorted, KeyBefore}
use ucxx.Variant.Assignments.{
  Assignments, assign_all, last_value, SameLast, assign_all-SameLast, assign_all-IsSorted,
  map_find-fresh, map-ext, KeyBefore-absent,
}

abbrev pub View : Type 0
View = Quot SameLast

-- The map that holds what the view says.
unfoldable pub to_map : View → VariantMap
to_map = Quot.lift (hlevel) (assign_all end) λ es fs h. (assign_all-SameLast es fs).1 h

unfoldable pub entries : VariantMap → Assignments
entries end = []
entries (entry k v m) = (k, v) ∷ entries m

unfoldable pub view_of : VariantMap → View
view_of m = Quot.mk (entries m)

last_value-append :
    (es : Assignments) (k : Key) (v : Variant) (i : Key)
    → last_value (es ++ (k, v) ∷ []) i
      ≡ elim (compare_keys i k) [ Ordering.eq ↦ some v | _ ↦ last_value es i ]
unfolding last_value
last_value-append [] k v i = refl
last_value-append ((j, w) ∷ es) k v i = ground (arith, last_value-append es k v i)

pub append-SameLast :
    (k : Key) (v : Variant) (es fs : Assignments)
    → SameLast es fs
    → SameLast (es ++ (k, v) ∷ []) (fs ++ (k, v) ∷ [])
append-SameLast k v es fs h i =
    ground (arith, last_value-append es k v i, last_value-append fs k v i, h i)

last_value-entries :
    (m : VariantMap) (k : Key) → IsSorted m → last_value (entries m) k ≡ map_find m k
unfolding last_value entries map_find
last_value-entries end k h = refl
last_value-entries (entry j w m) k h =
    ground (arith, last_value-entries m k h.1, KeyBefore-absent j m h.0, compare_keys-eq k j)

-- `map[key] = value` on the view.
unfoldable pub enter : Key → Variant → View → View
enter k v =
    Quot.lift Quot-set (λ es. Quot.mk (es ++ (k, v) ∷ []))
      λ es fs h. Quot.sound (append-SameLast k v es fs h)

-- `map.find(key)` on the view.
unfoldable pub value : View → Key → Option Variant
value = Quot.lift (hlevel) last_value λ es fs h. fun_ext h

pub to_map_injective : (x y : View) → to_map x ≡ to_map y → x ≡ y
unfolding to_map
to_map_injective =
    Quot.ind (λ _. hlevel Quot-set)
      λ es. Quot.ind (λ _. hlevel Quot-set) λ fs h. Quot.sound ((assign_all-SameLast es fs).0 h)

KeyBefore-prop : (k : Key) (m : VariantMap) → IsProp (KeyBefore k m)
KeyBefore-prop k end = hlevel
KeyBefore-prop k (entry j w m) = hlevel (KeyBefore-prop k m)

IsSorted-prop : (m : VariantMap) → IsProp (IsSorted m)
IsSorted-prop end = hlevel
IsSorted-prop (entry k v m) = hlevel (KeyBefore-prop k m, IsSorted-prop m)

pub to_map-IsSorted : (x : View) → IsSorted (to_map x)
unfolding to_map
to_map-IsSorted = Quot.ind (λ x. IsSorted-prop (to_map x)) (λ es. assign_all-IsSorted end es tt)

pub to_map-view_of : (m : VariantMap) → IsSorted m → to_map (view_of m) ≡ m
unfolding to_map view_of
to_map-view_of m h =
    map-ext (assign_all end (entries m)) m (assign_all-IsSorted end (entries m) tt) h
      (λ k. map_find-fresh (entries m) k ∙ last_value-entries m k h)

-- Different keys can be entered in either order.
pub enter_comm :
    (k j : Key) (v w : Variant)
    → k ≢ j
    → (x : View) → enter k v (enter j w x) ≡ enter j w (enter k v x)
unfolding enter
enter_comm k j v w ne = Quot.ind (λ _. Quot-set _ _) (λ es. Quot.sound (both es))
  where
    both :
        (es : Assignments)
        → SameLast ((es ++ (j, w) ∷ []) ++ (k, v) ∷ []) ((es ++ (k, v) ∷ []) ++ (j, w) ∷ [])
    both es i = ground (
      arith,
      ne,
      last_value-append (es ++ (j, w) ∷ []) k v i,
      last_value-append (es ++ (k, v) ∷ []) j w i,
      last_value-append es j w i,
      last_value-append es k v i,
      compare_keys-eq i k,
      compare_keys-eq i j,
    )
