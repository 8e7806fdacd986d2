-- ===== src/Variant/Memory/Clear.antt =====
-- src/Variant.cpp: which objects clear() deletes.
use ucxx.Base.{
  ℕ, ◌≡◌, refl, List, [], ◌∷◌, ◌++◌, Bool, true, false, Option, some, arith, if◌then◌else◌, ◌==◌,
}
use ucxx.Base.Threads.{update}
use ucxx.Variant.Memory.{
  Object, Cells, string, list, map, nil, cons, Heap, release, and_then, clear, clear_cells,
}

-- The addresses of the objects behind a Variant, in the order in which they are deleted.
unfoldable mutual
  pub addresses : Object → List ℕ
  addresses (string a text) = a ∷ []
  addresses (list a cells) = cell_addresses cells ++ a ∷ []
  addresses (map a cells) = cell_addresses cells ++ a ∷ []
  addresses _ = []

  pub cell_addresses : Cells → List ℕ
  cell_addresses nil = []
  cell_addresses (cons k o cells) = addresses o ++ cell_addresses cells

-- No address occurs twice, and each is that of an object.
abbrev pub Deletable : List ℕ → (ℕ → Bool) → Type 0
Deletable [] f = Unit {0}
Deletable (a ∷ xs) f = (f a ≡ true) × Deletable xs (update f a false)

abbrev pub without : List ℕ → (ℕ → Bool) → ℕ → Bool
without [] f = f
without (a ∷ xs) f = without xs (update f a false)

pub without-append :
    (xs ys : List ℕ) (f : ℕ → Bool) → without (xs ++ ys) f ≡ without ys (without xs f)
without-append [] ys f = refl
without-append (a ∷ xs) ys f = without-append xs ys (update f a false)

pub Deletable-append :
    (xs ys : List ℕ) (f : ℕ → Bool)
    → Deletable (xs ++ ys) f
    → Deletable xs f × Deletable ys (without xs f)
Deletable-append [] ys f h = (tt, h)
Deletable-append (a ∷ xs) ys f (here, rest) =
    let (first, second) = Deletable-append xs ys (update f a false) rest in ((here, first), second)

pub append-Deletable :
    (xs ys : List ℕ) (f : ℕ → Bool)
    → Deletable xs f
    → Deletable ys (without xs f)
    → Deletable (xs ++ ys) f
append-Deletable [] ys f first second = second
append-Deletable (a ∷ xs) ys f (here, rest) second =
    (here, append-Deletable xs ys (update f a false) rest second)

abbrev pub cleared : Heap → List ℕ → Heap
cleared h xs = record h { live = without xs h.live }

cleared-append : (xs ys : List ℕ) (h : Heap) → cleared h (xs ++ ys) ≡ cleared (cleared h xs) ys
cleared-append xs ys h = rw (without-append xs ys h.live) refl

release-lem : (a : ℕ) (h : Heap) → h.live a ≡ true → release a h ≡ some (cleared h (a ∷ []))
release-lem a h live = rw (live, release) refl

-- Deleting a container behind its elements.
container-lem :
    (a : ℕ) (xs : List ℕ) (h : Heap) (x : Option Heap)
    → Deletable (xs ++ a ∷ []) h.live
    → x ≡ some (cleared h xs)
    → and_then x (release a) ≡ some (cleared h (xs ++ a ∷ []))
container-lem a xs h x ok e =
    let (first, (live, _)) = Deletable-append xs (a ∷ []) h.live ok in
    rw (e, cleared-append xs (a ∷ []) h) (release-lem a (cleared h xs) live)

mutual
  unfolding clear addresses

  clear_deletes :
      (o : Object) (h : Heap)
      → Deletable (addresses o) h.live
      → clear o h ≡ some (cleared h (addresses o))
  clear_deletes (string a text) h (live, _) = release-lem a h live
  clear_deletes (list a cells) h ok =
      container-lem a (cell_addresses cells) h _ ok
        (clear_cells_deletes cells h (Deletable-append (cell_addresses cells) (a ∷ []) h.live ok).0)
  clear_deletes (map a cells) h ok =
      container-lem a (cell_addresses cells) h _ ok
        (clear_cells_deletes cells h (Deletable-append (cell_addresses cells) (a ∷ []) h.live ok).0)
  clear_deletes _ h ok = refl

  pub clear_cells_deletes :
      (cells : Cells) (h : Heap)
      → Deletable (cell_addresses cells) h.live
      → clear_cells cells h ≡ some (cleared h (cell_addresses cells))
  clear_cells_deletes nil h ok = refl
  clear_cells_deletes (cons k o cells) h ok =
      let (first, second) = Deletable-append (addresses o) (cell_addresses cells) h.live ok in
      rw (clear_deletes o h first, cleared-append (addresses o) (cell_addresses cells) h)
        (clear_cells_deletes cells (cleared h (addresses o)) second)

abbrev pub occurs : ℕ → List ℕ → Bool
occurs b [] = false
occurs b (a ∷ xs) = if a == b then true else occurs b xs

pub without-lem :
    (xs : List ℕ) (f : ℕ → Bool) (b : ℕ) → without xs f b ≡ (if occurs b xs then false else f b)
without-lem [] f b = refl
without-lem (a ∷ xs) f b = ground (arith, without-lem xs (update f a false) b)

-- clear() of a Variant whose objects are all there, none of them owned twice, deletes exactly those
-- objects, each once, and never an object that is not there.
pub clear-lem :
    (o : Object) (h : Heap)
    → Deletable (addresses o) h.live
    → (clear o h ≡ some (cleared h (addresses o)))
      × ((b : ℕ)
          → (cleared h (addresses o)).live b ≡ (if occurs b (addresses o) then false else h.live b))
clear-lem o h ok = (clear_deletes o h ok, without-lem (addresses o) h.live)
