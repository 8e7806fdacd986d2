-- ===== src/Variant/Memory/Assign.antt =====
-- src/Variant.cpp: the copy constructor and the assignments, on a heap.
use ucxx.Base.{ℕ, ◌≡◌, refl, List, Bool, true, false, Option, none, some, arith, if◌then◌else◌, ◌∙◌}
use ucxx.Base.Int.{ℤ}
use ucxx.Variant.Memory.{
  Object, boolean, integer, real, string, Heap, reading, at_home, init_from, assign, allocate,
  assign_boolean, assign_integer, assign_real, assign_string,
}
use ucxx.Variant.Memory.Clear.{
  addresses, Deletable, without, occurs, without-lem, cleared, clear-lem,
}
use ucxx.Variant.Memory.Copy.{size, renumber, grown, grown_live, between, Live, init_copies}
use ucxx.Variant.Memory.Fresh.{value, value-renumber, renumber-Deletable, grown-IsFilled}

-- What a copy of `source` in the heap `h` is: a Variant of the same value that owns new objects,
-- each once, and a heap in which they are there besides those that were.
abbrev pub IsCopy : Object → Heap → Object × Heap → Type 0
IsCopy source h r =
    (value r.0 ≡ value source)
    × Deletable (addresses r.0) r.1.live
    × ((b : ℕ) → r.1.live b ≡ (if between h.next (size source) b then true else h.live b))

renumber-IsCopy :
    (source : Object) (h : Heap) → IsCopy source h (renumber source h.next, grown (size source) h)
renumber-IsCopy source h = (
  value-renumber source h.next,
  renumber-Deletable source h.next (grown (size source) h).live (grown-IsFilled (size source) h),
  grown_live (size source) h,
)

-- Variant(const Variant &) reads only objects that are there, when the original's are, and makes a
-- Variant of the same value that owns new objects only; no object is deleted.
pub init_from-IsCopy :
    (source : Object) (h : Heap)
    → Live (addresses source) h.live
    → (r : Object × Heap) × (init_from source h ≡ some r) × IsCopy source h r
init_from-IsCopy source h live = (_, init_copies source h live, renumber-IsCopy source h)

abbrev pub IsThere : Option ℕ → (ℕ → Bool) → Type 0
IsThere none f = Unit {0}
IsThere (some a) f = f a ≡ true

pub there-at_home :
    {A : Type 0} (home : Option ℕ) (h : Heap) (x : Option A)
    → IsThere home h.live
    → at_home home h x ≡ x
there-at_home none h x there = refl
there-at_home (some a) h x there = rw (there, reading) refl

-- operator =(const Variant &) deletes exactly the objects that the Variant has owned and gives it a
-- copy of the argument, when the argument and its objects are none of those.
pub assign-IsCopy :
    (o source : Object) (home : Option ℕ) (h : Heap)
    → Deletable (addresses o) h.live
    → IsThere home (without (addresses o) h.live)
    → Live (addresses source) (without (addresses o) h.live)
    → (r : Object × Heap) × (assign false o home source h ≡ some r)
      × IsCopy source (cleared h (addresses o)) r
unfolding assign
assign-IsCopy o source home h owned there live =
    let after = cleared h (addresses o) in
    let (r, e, copy) = init_from-IsCopy source after live in
    (
      r,
      rw ((clear-lem o h owned).0) (there-at_home home after (init_from source after) there ∙ e),
      copy,
    )

-- An argument that stands in an object that the Variant itself owns, such as an element of its own
-- list, is read after it has been deleted, whatever it is.
pub assign_element :
    (o source : Object) (a : ℕ) (h : Heap)
    → Deletable (addresses o) h.live
    → occurs a (addresses o) ≡ true
    → assign false o (some a) source h ≡ none
unfolding assign
assign_element o source a h owned inside =
    let gone : without (addresses o) h.live a ≡ false =
      without-lem (addresses o) h.live a ∙ rw inside refl in
    rw ((clear-lem o h owned).0, gone) refl

assign_boolean-clear :
    (o : Object) (h : Heap) (b : Bool)
    → Deletable (addresses o) h.live
    → assign_boolean o b h ≡ some (boolean b, cleared h (addresses o))
unfolding assign_boolean addresses
assign_boolean-clear (boolean _) h b owned = refl
assign_boolean-clear o h b owned = rw ((clear-lem o h owned).0) refl

assign_integer-clear :
    (o : Object) (h : Heap) (i : ℤ)
    → Deletable (addresses o) h.live
    → assign_integer o i h ≡ some (integer i, cleared h (addresses o))
unfolding assign_integer addresses
assign_integer-clear (integer _) h i owned = refl
assign_integer-clear o h i owned = rw ((clear-lem o h owned).0) refl

assign_real-clear :
    (o : Object) (h : Heap) (r : ℕ)
    → Deletable (addresses o) h.live
    → assign_real o r h ≡ some (real r, cleared h (addresses o))
unfolding assign_real addresses
assign_real-clear (real _) h r owned = refl
assign_real-clear o h r owned = rw ((clear-lem o h owned).0) refl

-- The assignments of a bool, an int and a double delete the objects that the Variant has owned,
-- each once, and no other.
pub assign_scalars :
    (o : Object) (h : Heap) (b : Bool) (i : ℤ) (r : ℕ)
    → Deletable (addresses o) h.live
    → (assign_boolean o b h ≡ some (boolean b, cleared h (addresses o)))
      × (assign_integer o i h ≡ some (integer i, cleared h (addresses o)))
      × (assign_real o r h ≡ some (real r, cleared h (addresses o)))
assign_scalars o h b i r owned = (
  assign_boolean-clear o h b owned,
  assign_integer-clear o h i owned,
  assign_real-clear o h r owned,
)

-- The assignment of a string succeeds when the argument is there before and after the objects of
-- the Variant are deleted; the Variant then holds the text and owns one object, which is there.
pub assign_string-value :
    (o : Object) (home : Option ℕ) (text : List ℕ) (h : Heap)
    → Deletable (addresses o) h.live
    → IsThere home h.live
    → IsThere home (without (addresses o) h.live)
    → (r : Object × Heap) × (assign_string o home text h ≡ some r)
      × (value r.0 ≡ string 0 text)
      × Deletable (addresses r.0) r.1.live
unfolding assign_string addresses value
assign_string-value (string a old) home text h (live, _) before after =
    ((string a text, h), there-at_home home h _ before ∙ rw (live, reading) refl, refl, (live, tt))
assign_string-value o home text h owned before after =
    let next = cleared h (addresses o) in
    (
      (string next.next text, allocate next),
      rw ((clear-lem o h owned).0) (there-at_home home next _ after),
      refl,
      (ground arith, tt),
    )
