-- ===== src/Variant/Memory.antt =====
-- src/Variant.cpp: the objects behind m_data.ptr, which a Variant owns: clear, initFrom, the
-- destructor, the copy constructor and the assignments. An object is known by its address.
pub mod Clear
pub mod Copy
pub mod Fresh
pub mod Assign
pub mod Containers
pub mod Construct
mod Tests
use ucxx.Base.{ℕ, suc, List, Bool, true, false, Option, none, some, if◌then◌else◌}
use ucxx.Base.Int.{ℤ}
use ucxx.Base.Threads.{update}
use ucxx.Variant.Keys.{Key}

-- A Variant with what it owns: a string, a list or a map is the address of its object, and what
-- stands in the object. An element of a map has a key.
mutual
  pub data Object : Type 0 where
    invalid null : Object
    boolean : Bool → Object
    integer : ℤ → Object
    real : ℕ → Object
    string : ℕ → List ℕ → Object
    list : ℕ → Cells → Object
    map : ℕ → Cells → Object

  pub data Cells : Type 0 where
    nil : Cells
    cons : Option Key → Object → Cells → Cells

-- Which addresses are those of objects, and the next that `new` gives out.
pub record Heap : Type 0 where
  pub live : ℕ → Bool
  pub next : ℕ

-- `delete` of an object that is not there is undefined behaviour: `none`.
abbrev pub release : ℕ → Heap → Option Heap
release a h = if h.live a then some (record h { live = update h.live a false }) else none

abbrev pub allocate : Heap → Heap
allocate h = record { live = update h.live h.next true; next = suc h.next }

abbrev pub and_then : {A B : Type 0} → Option A → (A → Option B) → Option B
and_then none f = none
and_then (some a) f = f a

-- Variant::clear; what it leaves is `invalid`. Deleting a container destroys its elements, each by
-- ~Variant, which is clear.
unfoldable mutual
  pub clear : Object → Heap → Option Heap
  clear (string a text) h = release a h
  clear (list a cells) h = and_then (clear_cells cells h) (release a)
  clear (map a cells) h = and_then (clear_cells cells h) (release a)
  clear _ h = some h

  pub clear_cells : Cells → Heap → Option Heap
  clear_cells nil h = some h
  clear_cells (cons k o cells) h = and_then (clear o h) (clear_cells cells)

-- An object that is read has to be there.
abbrev pub reading {ℓ} : {A : Type ℓ} → ℕ → Heap → Option A → Option A
reading a h x = if h.live a then x else none

-- Variant::initFrom, behind Variant(const Variant &): a new object, and copies of the elements.
unfoldable mutual
  pub init_from : Object → Heap → Option (Object × Heap)
  init_from (string a text) h = reading a h (some (string h.next text, allocate h))
  init_from (list a cells) h =
      let copied = init_cells cells (allocate h) in
      reading a h (and_then copied (λ c. some (list h.next c.0, c.1)))
  init_from (map a cells) h =
      let copied = init_cells cells (allocate h) in
      reading a h (and_then copied (λ c. some (map h.next c.0, c.1)))
  init_from o h = some (o, h)

  pub init_cells : Cells → Heap → Option (Cells × Heap)
  init_cells nil h = some (nil, h)
  init_cells (cons k o cells) h =
      and_then (init_from o h)
        (λ c. and_then (init_cells cells c.1) (λ d. some (cons k c.0 d.0, d.1)))

-- Where a value stands that is passed by reference: in the object at an address, or elsewhere.
abbrev pub at_home {ℓ} : {A : Type ℓ} → Option ℕ → Heap → Option A → Option A
at_home none h x = x
at_home (some a) h x = reading a h x

-- operator =(const Variant &): `same` is `this == &variant`.
unfoldable pub assign : Bool → Object → Option ℕ → Object → Heap → Option (Object × Heap)
assign true o home source h = some (o, h)
assign false o home source h = and_then (clear o h) (λ h. at_home home h (init_from source h))

-- operator =(bool), operator =(int), operator =(double)
unfoldable pub assign_boolean : Object → Bool → Heap → Option (Object × Heap)
assign_boolean (boolean _) value h = some (boolean value, h)
assign_boolean o value h = and_then (clear o h) (λ h. some (boolean value, h))

unfoldable pub assign_integer : Object → ℤ → Heap → Option (Object × Heap)
assign_integer (integer _) value h = some (integer value, h)
assign_integer o value h = and_then (clear o h) (λ h. some (integer value, h))

unfoldable pub assign_real : Object → ℕ → Heap → Option (Object × Heap)
assign_real (real _) value h = some (real value, h)
assign_real o value h = and_then (clear o h) (λ h. some (real value, h))

-- operator =(const std::string &): a string is assigned in place.
unfoldable pub assign_string : Object → Option ℕ → List ℕ → Heap → Option (Object × Heap)
assign_string (string a text) home value h = at_home home h (reading a h (some (string a value, h)))
assign_string o home value h =
    and_then (clear o h) (λ h. at_home home h (some (string h.next value, allocate h)))

-- `*pList = value` and `*pMap = value` erase the elements that are there and then insert copies of
-- those of the argument, as the standard has it; an assignment to itself does nothing.
unfoldable pub replace_cells :
    Bool → (Cells → Object) → Cells → Option ℕ → Cells → Heap → Option (Object × Heap)
replace_cells true wrap cells home value h = some (wrap cells, h)
replace_cells false wrap cells home value h =
    and_then (clear_cells cells h)
      (λ h. at_home home h (and_then (init_cells value h) (λ c. some (wrap c.0, c.1))))

-- `new VariantList(value)` and `new VariantMap(value)`
unfoldable pub new_cells : (ℕ → Cells → Object) → Option ℕ → Cells → Heap → Option (Object × Heap)
new_cells wrap home value h =
    at_home home h (and_then (init_cells value (allocate h)) (λ c. some (wrap h.next c.0, c.1)))

-- operator =(const VariantList &): `same` is whether the argument is the Variant's own list.
unfoldable pub assign_list : Bool → Object → Option ℕ → Cells → Heap → Option (Object × Heap)
assign_list same (list a cells) home value h =
    reading a h (replace_cells same (list a) cells home value h)
assign_list same o home value h = and_then (clear o h) (new_cells list home value)

-- operator =(const VariantMap &)
unfoldable pub assign_map : Bool → Object → Option ℕ → Cells → Heap → Option (Object × Heap)
assign_map same (map a cells) home value h =
    reading a h (replace_cells same (map a) cells home value h)
assign_map same o home value h = and_then (clear o h) (new_cells map home value)
