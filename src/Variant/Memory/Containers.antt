-- ===== src/Variant/Memory/Containers.antt =====
-- src/Variant.cpp: the assignments of a list and of a map, on a heap.
use ucxx.Base.{
  ap, ℕ, suc, ◌+◌, ◌≤◌, ◌<◌, ◌≡◌, refl, sym, List, [], ◌∷◌, ◌++◌, Bool, true, false, Option, none,
  some, arith, ◌∙◌, inl,
}
use native.Mathlib.Decide.{dec_lt}
use ucxx.Variant.Memory.{
  Object, Cells, list, map, Heap, reading, allocate, replace_cells, new_cells, assign_list,
  assign_map,
}
use ucxx.Variant.Memory.Assign.{IsThere, there-at_home}
use ucxx.Variant.Memory.Clear.{
  addresses, cell_addresses, Deletable, without, occurs, without-lem, without-append, cleared,
  clear-lem, clear_cells_deletes, Deletable-append, append-Deletable,
}
use ucxx.Variant.Memory.Copy.{
  cell_size, renumber_cells, grown, grown_live, grown-Live, Live, init_cells_copies,
}
use ucxx.Variant.Memory.Fresh.{
  value, cell_values, values-renumber, renumber_cells-Deletable, cells-IsWithin, outside, IsFilled,
  grown-IsFilled,
}

-- No object is at an address that is still to be given out.
abbrev pub IsBounded : Heap → Type 0
IsBounded h = (b : ℕ) → h.next ≤ b → h.live b ≡ false

-- A Variant that holds copies of `cells`, and owns its objects, each once.
abbrev pub Holds : Object → Object × Heap → Type 0
Holds wanted r = (value r.0 ≡ value wanted) × Deletable (addresses r.0) r.1.live

-- Elements that have been copied to the addresses from `n` on, and their container's object, below
-- or above them.
beside-Deletable :
    (a n : ℕ) (source : Cells) (f : ℕ → Bool)
    → (a < n)
    → f a ≡ true
    → IsFilled n (n + cell_size source) f
    → Deletable (cell_addresses (renumber_cells source n) ++ a ∷ []) f
beside-Deletable a n source f below live filled =
    let xs : List ℕ = cell_addresses (renumber_cells source n) in
    let away : occurs a xs ≡ false =
      outside xs n (n + cell_size source) a (cells-IsWithin source n) (inl below) in
    append-Deletable xs (a ∷ []) f (renumber_cells-Deletable source n f filled)
      (without-lem xs f a ∙ rw away live, tt)

copied-Live : (n : ℕ) (h : Heap) (a : ℕ) → h.live a ≡ true → (grown n h).live a ≡ true
copied-Live n h a live = ground (arith, grown_live n h a)

below_next : (h : Heap) (a : ℕ) → IsBounded h → h.live a ≡ true → a < h.next
below_next h a bounded live = elim (dec_lt a h.next) [
  | yes below ↦ below
  | no above ↦ absurd (cc (bounded a (omega arith), live))
]

-- What is left when more is deleted is left when less is.
less_deleted :
    (xs ys : List ℕ) (f : ℕ → Bool) (b : ℕ) → without (xs ++ ys) f b ≡ true → without xs f b ≡ true
less_deleted xs ys f b h =
    let both : without ys (without xs f) b ≡ true = rw (sym (without-append xs ys f)) h in
    ground (arith, without-lem ys (without xs f) b, both)

less_deleted-IsThere :
    (xs ys : List ℕ) (f : ℕ → Bool) (home : Option ℕ)
    → IsThere home (without (xs ++ ys) f)
    → IsThere home (without xs f)
less_deleted-IsThere xs ys f none there = tt
less_deleted-IsThere xs ys f (some b) there = less_deleted xs ys f b there

less_deleted-Live :
    (xs ys zs : List ℕ) (f : ℕ → Bool) → Live zs (without (xs ++ ys) f) → Live zs (without xs f)
less_deleted-Live xs ys [] f live = tt
less_deleted-Live xs ys (z ∷ zs) f (here, rest) =
    (less_deleted xs ys f z here, less_deleted-Live xs ys zs f rest)

-- The two containers alike.
module _ (wrap : ℕ → Cells → Object)
    (value-wrap : (a : ℕ) (cells : Cells) → value (wrap a cells) ≡ wrap 0 (cell_values cells))
    (addresses-wrap : (a : ℕ) (cells : Cells)
      → addresses (wrap a cells) ≡ cell_addresses cells ++ a ∷ []) where
  made-Holds :
      (a n : ℕ) (source : Cells) (h : Heap)
      → Deletable (cell_addresses (renumber_cells source n) ++ a ∷ []) h.live
      → Holds (wrap 0 source) (wrap a (renumber_cells source n), h)
  made-Holds a n source h ok = (
    value-wrap a (renumber_cells source n)
        ∙ ap (wrap 0) (values-renumber source n)
        ∙ sym (value-wrap 0 source),
    rw (addresses-wrap) ok,
  )

  replace_cells-Holds :
      (a : ℕ) (cells : Cells) (home : Option ℕ) (source : Cells) (h : Heap)
      → IsBounded h
      → Deletable (cell_addresses cells ++ a ∷ []) h.live
      → IsThere home (without (cell_addresses cells) h.live)
      → Live (cell_addresses source) (without (cell_addresses cells) h.live)
      → (r : Object × Heap) × (reading a h (replace_cells false (wrap a) cells home source h)
          ≡ some r)
        × Holds (wrap 0 source) r
  unfolding replace_cells
  replace_cells-Holds a cells home source h bounded owned there live =
      let (first, (at_a, _)) = Deletable-append (cell_addresses cells) (a ∷ []) h.live owned in
      let after = cleared h (cell_addresses cells) in
      let was_live : h.live a ≡ true =
        ground (arith, without-lem (cell_addresses cells) h.live a, at_a) in
      (
        (wrap a (renumber_cells source h.next), grown (cell_size source) after),
        rw (was_live, reading, clear_cells_deletes cells h first)
            (there-at_home home after _ there ∙ rw (init_cells_copies source after live) refl),
        made-Holds a h.next source (grown (cell_size source) after) (
            beside-Deletable a h.next source (grown (cell_size source) after).live
              (below_next h a bounded was_live) (copied-Live (cell_size source) after a at_a)
              (grown-IsFilled (cell_size source) after)),
      )

  new_cells-Holds :
      (home : Option ℕ) (source : Cells) (h : Heap)
      → IsThere home h.live
      → Live (cell_addresses source) h.live
      → (r : Object × Heap) × (new_cells wrap home source h ≡ some r) × Holds (wrap 0 source) r
  unfolding new_cells grown
  new_cells-Holds home source h there live =
      let n : ℕ = suc h.next in
      let after = grown (cell_size source) (allocate h) in
      (
        (wrap h.next (renumber_cells source n), after),
        there-at_home home h _ there
            ∙ rw
                (init_cells_copies source (allocate h)
                  (grown-Live 1 h (cell_addresses source) live))
                refl,
        made-Holds h.next n source after (
            beside-Deletable h.next n source after.live (omega arith)
              (copied-Live (cell_size source) (allocate h) h.next (ground arith))
              (grown-IsFilled (cell_size source) (allocate h))),
      )

-- The result of an assignment that succeeds, and holds copies of `wanted`.
abbrev pub Gives : Option (Object × Heap) → Object → Type 0
Gives result wanted = (r : Object × Heap) × (result ≡ some r) × Holds wanted r

assign_list-Gives :
    (o : Object) (home : Option ℕ) (source : Cells) (h : Heap)
    → IsBounded h
    → Deletable (addresses o) h.live
    → IsThere home (without (addresses o) h.live)
    → Live (cell_addresses source) (without (addresses o) h.live)
    → Gives (assign_list false o home source h) (list 0 source)
unfolding assign_list addresses value
assign_list-Gives (list a cells) home source h bounded owned there live =
    replace_cells-Holds list (λ _ _. refl) (λ _ _. refl) a cells home source h bounded owned
      (less_deleted-IsThere (cell_addresses cells) (a ∷ []) h.live home there)
      (less_deleted-Live (cell_addresses cells) (a ∷ []) (cell_addresses source) h.live live)
assign_list-Gives o home source h bounded owned there live =
    let (r, e, ok) =
      new_cells-Holds list (λ _ _. refl) (λ _ _. refl) home source (cleared h (addresses o)) there
        live in
    (r, rw ((clear-lem o h owned).0) e, ok)

assign_map-Gives :
    (o : Object) (home : Option ℕ) (source : Cells) (h : Heap)
    → IsBounded h
    → Deletable (addresses o) h.live
    → IsThere home (without (addresses o) h.live)
    → Live (cell_addresses source) (without (addresses o) h.live)
    → Gives (assign_map false o home source h) (map 0 source)
unfolding assign_map addresses value
assign_map-Gives (map a cells) home source h bounded owned there live =
    replace_cells-Holds map (λ _ _. refl) (λ _ _. refl) a cells home source h bounded owned
      (less_deleted-IsThere (cell_addresses cells) (a ∷ []) h.live home there)
      (less_deleted-Live (cell_addresses cells) (a ∷ []) (cell_addresses source) h.live live)
assign_map-Gives o home source h bounded owned there live =
    let (r, e, ok) =
      new_cells-Holds map (λ _ _. refl) (λ _ _. refl) home source (cleared h (addresses o)) there
        live in
    (r, rw ((clear-lem o h owned).0) e, ok)

-- The assignment of a list and that of a map succeed when the argument and its objects are none of
-- those that the Variant owns; the Variant then has the elements of the argument, and owns its
-- objects, which are there, each once. The assignment of its own list or map leaves it as it is.
-- This is in a heap with no object at an address that is still to be given out.
pub assign_containers :
    (o : Object) (home : Option ℕ) (source : Cells) (h : Heap)
    → IsBounded h
    → Deletable (addresses o) h.live
    → IsThere home (without (addresses o) h.live)
    → Live (cell_addresses source) (without (addresses o) h.live)
    → Gives (assign_list false o home source h) (list 0 source)
      × Gives (assign_map false o home source h) (map 0 source)
      × ((a : ℕ) (cells : Cells)
          → h.live a ≡ true
          → (assign_list true (list a cells) (some a) cells h ≡ some (list a cells, h))
            × (assign_map true (map a cells) (some a) cells h ≡ some (map a cells, h)))
unfolding assign_list assign_map replace_cells
assign_containers o home source h bounded owned there live = (
  assign_list-Gives o home source h bounded owned there live,
  assign_map-Gives o home source h bounded owned there live,
  λ a cells at_a. (rw (at_a, reading) refl, rw (at_a, reading) refl),
)
