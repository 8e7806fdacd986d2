-- ===== src/Variant/Memory/Construct.antt =====
-- src/Variant.cpp: the constructors and the destructor, on a heap.
use ucxx.Base.{
  Bool-cases, inl, inr, ◌⊎◌, ℕ, suc, ◌+◌, ◌≤◌, ◌<◌, ◌≡◌, refl, sym, List, [], ◌∷◌, ◌++◌, Bool, true,
  false, Option, none, some, arith, if◌then◌else◌, ◌∙◌,
}
use native.Mathlib.Decide.{dec_lt}
use ucxx.Base.Int.{ℤ, pos}
use ucxx.Variant.{Kind}
use ucxx.Variant.Memory.{
  Object, Cells, invalid, null, boolean, integer, real, string, list, map, nil, cons, Heap,
  allocate, init_from, clear, new_cells,
}
use ucxx.Variant.Memory.Clear.{addresses, cell_addresses, occurs, clear-lem}
use ucxx.Variant.Memory.Copy.{
  size, cell_size, renumber, renumber_cells, grown, grown_live, between, Live, init_copies,
  init_cells_copies, grown-Live,
}
use ucxx.Variant.Memory.Fresh.{renumber-Deletable, grown-IsFilled, addresses-IsWithin, outside}
use ucxx.Variant.Memory.Containers.{IsBounded}

-- Variant(bool), Variant(int) and Variant(double)
unfoldable pub of_boolean : Bool → Heap → Object × Heap
of_boolean value h = (boolean value, h)

unfoldable pub of_integer : ℤ → Heap → Object × Heap
of_integer value h = (integer value, h)

unfoldable pub of_real : ℕ → Heap → Object × Heap
of_real value h = (real value, h)

-- Variant(const std::string &); Variant(const char *) is that of the characters before the
-- terminator.
unfoldable pub of_string : List ℕ → Heap → Object × Heap
of_string value h = (string h.next value, allocate h)

-- Variant(const VariantList &) and Variant(const VariantMap &)
unfoldable pub of_list : Cells → Heap → Option (Object × Heap)
of_list value h = new_cells list none value h

unfoldable pub of_map : Cells → Heap → Option (Object × Heap)
of_map value h = new_cells map none value h

-- initializeType, behind Variant(Type). The bits of a null pointer are false, 0 and 0.0; a Variant
-- of MaxTypes holds nothing either.
unfoldable pub initialize_type : Kind → Heap → Object × Heap
initialize_type Kind.boolean h = (boolean false, h)
initialize_type Kind.integer h = (integer (pos 0), h)
initialize_type Kind.real h = (real 0, h)
initialize_type Kind.string h = (string h.next [], allocate h)
initialize_type Kind.list h = (list h.next nil, allocate h)
initialize_type Kind.map h = (map h.next nil, allocate h)
initialize_type Kind.null h = (null, h)
initialize_type _ h = (invalid, h)

-- ~Variant
unfoldable pub destroy : Object → Heap → Option Heap
destroy o h = clear o h

occurs-left : (xs ys : List ℕ) (b : ℕ) → occurs b xs ≡ true → occurs b (xs ++ ys) ≡ true
occurs-left [] ys b h = absurd (cc h)
occurs-left (x ∷ xs) ys b h = ground (arith, occurs-left xs ys b, h)

occurs-right : (xs ys : List ℕ) (b : ℕ) → occurs b ys ≡ true → occurs b (xs ++ ys) ≡ true
occurs-right [] ys b h = h
occurs-right (x ∷ xs) ys b h = ground (arith, occurs-right xs ys b h)

-- A copy owns every address that it has been given.
mutual
  unfolding addresses renumber size

  renumber-occurs :
      (o : Object) (n b : ℕ) → n ≤ b → b < n + size o → occurs b (addresses (renumber o n)) ≡ true
  renumber-occurs (string a text) n b low high = ground arith
  renumber-occurs (list a cells) n b low high = elim (dec_lt n b) [
    | yes inner ↦
        occurs-left (cell_addresses (renumber_cells cells (suc n))) (n ∷ []) b
          (renumber_cells-occurs cells (suc n) b (omega arith) (omega arith))
    | no own ↦
        occurs-right (cell_addresses (renumber_cells cells (suc n))) (n ∷ []) b (ground arith)
  ]
  renumber-occurs (map a cells) n b low high = elim (dec_lt n b) [
    | yes inner ↦
        occurs-left (cell_addresses (renumber_cells cells (suc n))) (n ∷ []) b
          (renumber_cells-occurs cells (suc n) b (omega arith) (omega arith))
    | no own ↦
        occurs-right (cell_addresses (renumber_cells cells (suc n))) (n ∷ []) b (ground arith)
  ]
  renumber-occurs _ n b low high = absurd (omega arith)

  renumber_cells-occurs :
      (cells : Cells) (n b : ℕ)
      → n ≤ b
      → b < n + cell_size cells
      → occurs b (cell_addresses (renumber_cells cells n)) ≡ true
  renumber_cells-occurs nil n b low high = absurd (omega arith)
  renumber_cells-occurs (cons k o cells) n b low high = elim (dec_lt b (n + size o)) [
    | yes first ↦
        occurs-left (addresses (renumber o n)) (cell_addresses (renumber_cells cells (n + size o)))
          b (renumber-occurs o n b low first)
    | no behind ↦
        occurs-right (addresses (renumber o n)) (cell_addresses (renumber_cells cells (n + size o)))
          b (renumber_cells-occurs cells (n + size o) b (omega arith) (omega arith))
  ]

-- The heap `after` has the objects of `before`.
abbrev pub IsRestored : Heap → Option Heap → Type 0
IsRestored before none = ⊥
IsRestored before (some after) = (b : ℕ) → after.live b ≡ before.live b

destroy-renumber :
    (o : Object) (h : Heap)
    → IsBounded h
    → IsRestored h (destroy (renumber o h.next) (grown (size o) h))
unfolding destroy
destroy-renumber o h bounded =
    let (e, after) =
      clear-lem (renumber o h.next) (grown (size o) h)
        (renumber-Deletable o h.next (grown (size o) h).live (grown-IsFilled (size o) h)) in
    rw e (λ b. after b ∙ unchanged b (grown_live (size o) h b))
  where
    off : (b : ℕ) → between h.next (size o) b ≡ false → (b < h.next) ⊎ (h.next + size o ≤ b)
    off b other = elim (dec_lt b h.next) [ yes below ↦ inl below | no above ↦ inr (ground arith) ]

    unchanged :
        (b : ℕ)
        → (grown (size o) h).live b ≡ (if between h.next (size o) b then true else h.live b)
        → (if occurs b (addresses (renumber o h.next)) then false else (grown (size o) h).live b)
          ≡ h.live b
    unchanged b grows = elim (Bool-cases (between h.next (size o) b)) [
      | inl own ↦
          let gone : occurs b (addresses (renumber o h.next)) ≡ true =
            renumber-occurs o h.next b (ground arith) (ground arith) in
          rw gone (sym (bounded b (ground arith)))
      | inr other ↦
          let kept : occurs b (addresses (renumber o h.next)) ≡ false =
            outside (addresses (renumber o h.next)) h.next (h.next + size o) b
              (addresses-IsWithin o h.next) (off b other) in
          rw kept (ground (arith, grows))
    ]

-- A Variant that is constructed, and destroyed at once.
abbrev pub destroyed : Option (Object × Heap) → Option Heap
destroyed none = none
destroyed (some (o, h)) = destroy o h

initialize_type-IsRestored :
    (kind : Kind) (h : Heap)
    → IsBounded h
    → IsRestored h (destroyed (some (initialize_type kind h)))
unfolding initialize_type renumber size grown destroy clear
initialize_type-IsRestored Kind.string h bounded = destroy-renumber (string 0 []) h bounded
initialize_type-IsRestored Kind.list h bounded = destroy-renumber (list 0 nil) h bounded
initialize_type-IsRestored Kind.map h bounded = destroy-renumber (map 0 nil) h bounded
initialize_type-IsRestored Kind.boolean h bounded = λ b. refl
initialize_type-IsRestored Kind.integer h bounded = λ b. refl
initialize_type-IsRestored Kind.real h bounded = λ b. refl
initialize_type-IsRestored Kind.null h bounded = λ b. refl
initialize_type-IsRestored Kind.invalid h bounded = λ b. refl
initialize_type-IsRestored Kind.max_types h bounded = λ b. refl

-- Every constructor reads and makes only objects that are there, and the destructor of what it has
-- made deletes exactly what it has made: afterwards the same objects are there as before. This
-- holds of the copy constructor, of those of a type, a string, a list and a map, when the objects
-- of the argument are there and none is at an address that is still to be given out.
pub destroy-construct :
    (h : Heap)
    → IsBounded h
    → ((source : Object)
        → Live (addresses source) h.live
        → IsRestored h (destroyed (init_from source h)))
      × ((kind : Kind) → IsRestored h (destroyed (some (initialize_type kind h))))
      × ((text : List ℕ) → IsRestored h (destroyed (some (of_string text h))))
      × ((cells : Cells)
          → Live (cell_addresses cells) h.live
          → IsRestored h (destroyed (of_list cells h)) × IsRestored h (destroyed (of_map cells h)))
unfolding of_string of_list of_map new_cells renumber size grown
destroy-construct h bounded = (
  λ source live. rw (init_copies source h live, destroyed) (destroy-renumber source h bounded),
  λ kind. initialize_type-IsRestored kind h bounded,
  λ text. destroy-renumber (string 0 text) h bounded,
  λ cells live. (
    rw
        (
          init_cells_copies cells (allocate h) (grown-Live 1 h (cell_addresses cells) live),
          destroyed,
        )
        (destroy-renumber (list 0 cells) h bounded),
    rw
        (
          init_cells_copies cells (allocate h) (grown-Live 1 h (cell_addresses cells) live),
          destroyed,
        )
        (destroy-renumber (map 0 cells) h bounded),
  ),
)
