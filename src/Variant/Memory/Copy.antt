-- ===== src/Variant/Memory/Copy.antt =====
-- src/Variant.cpp: what initFrom builds.
use ucxx.Base.{
  ℕ, zero, suc, leb, ltb, ◌&&◌, ◌+◌, ◌≡◌, refl, List, [], ◌∷◌, ◌++◌, Bool, true, Option, some,
  arith, if◌then◌else◌, All, ap, ◌∙◌,
}
use ucxx.Variant.Memory.{
  Object, Cells, string, list, map, nil, cons, Heap, allocate, and_then, reading, init_from,
  init_cells,
}
use ucxx.Variant.Memory.Clear.{addresses, cell_addresses}

-- How many objects a Variant owns.
unfoldable mutual
  pub size : Object → ℕ
  size (string a text) = 1
  size (list a cells) = suc (cell_size cells)
  size (map a cells) = suc (cell_size cells)
  size _ = 0

  pub cell_size : Cells → ℕ
  cell_size nil = 0
  cell_size (cons k o cells) = size o + cell_size cells

-- The same value at the addresses from `n` on.
unfoldable mutual
  pub renumber : Object → ℕ → Object
  renumber (string a text) n = string n text
  renumber (list a cells) n = list n (renumber_cells cells (suc n))
  renumber (map a cells) n = map n (renumber_cells cells (suc n))
  renumber o n = o

  pub renumber_cells : Cells → ℕ → Cells
  renumber_cells nil n = nil
  renumber_cells (cons k o cells) n = cons k (renumber o n) (renumber_cells cells (n + size o))

-- The heap after `n` allocations.
unfoldable pub grown : ℕ → Heap → Heap
grown zero h = h
grown (suc n) h = grown n (allocate h)

grown-add : (m n : ℕ) (h : Heap) → grown (m + n) h ≡ grown n (grown m h)
unfolding grown
grown-add zero n h = let e : 0 + n ≡ n = omega arith in ap (λ k. grown k h) e
grown-add (suc m) n h =
    let e : suc m + n ≡ suc (m + n) = omega arith in
    ap (λ k. grown k h) e ∙ grown-add m n (allocate h)

grown_next : (n : ℕ) (h : Heap) → (grown n h).next ≡ h.next + n
unfolding grown
grown_next zero h = omega arith
grown_next (suc n) h = omega (arith, grown_next n (allocate h))

abbrev pub between : ℕ → ℕ → ℕ → Bool
between first n b = leb first b && ltb b (first + n)

pub grown_live :
    (n : ℕ) (h : Heap) (b : ℕ)
    → (grown n h).live b ≡ (if between h.next n b then true else h.live b)
unfolding grown
grown_live zero h b = ground arith
grown_live (suc n) h b = ground (arith, grown_live n (allocate h) b)

abbrev pub Live : List ℕ → (ℕ → Bool) → Type 0
Live xs f = All (λ a. f a ≡ true) xs

pub grown-Live : (n : ℕ) (h : Heap) (xs : List ℕ) → Live xs h.live → Live xs (grown n h).live
grown-Live n h [] ok = tt
grown-Live n h (a ∷ xs) (here, rest) =
    (ground (arith, grown_live n h a, here), grown-Live n h xs rest)

append-Live : (xs ys : List ℕ) (f : ℕ → Bool) → Live (xs ++ ys) f → Live xs f × Live ys f
append-Live [] ys f ok = (tt, ok)
append-Live (a ∷ xs) ys f (here, rest) =
    let (first, second) = append-Live xs ys f rest in ((here, first), second)

-- Copying a container: its object, then its elements.
copied-container :
    (a : ℕ) (h : Heap) (x : Option (Cells × Heap)) (cells : Cells) (n : ℕ) (wrap : Cells → Object)
    → h.live a ≡ true
    → x ≡ some (cells, grown n (allocate h))
    → reading {A = Object × Heap} a h (and_then x (λ c. some (wrap c.0, c.1)))
      ≡ some (wrap cells, grown (suc n) h)
unfolding grown
copied-container a h x cells n wrap live e = rw (live, e, reading, and_then) refl

mutual
  unfolding init_from size renumber addresses grown

  pub init_copies :
      (o : Object) (h : Heap)
      → Live (addresses o) h.live
      → init_from o h ≡ some (renumber o h.next, grown (size o) h)
  init_copies (string a text) h (live, _) = rw (live, reading) refl
  init_copies (list a cells) h ok =
      let (inner, (live, _)) = append-Live (cell_addresses cells) (a ∷ []) h.live ok in
      copied-container a h _ _ (cell_size cells) (λ c. list h.next c) live
        (init_cells_copies cells (allocate h) (grown-Live 1 h (cell_addresses cells) inner))
  init_copies (map a cells) h ok =
      let (inner, (live, _)) = append-Live (cell_addresses cells) (a ∷ []) h.live ok in
      copied-container a h _ _ (cell_size cells) (λ c. map h.next c) live
        (init_cells_copies cells (allocate h) (grown-Live 1 h (cell_addresses cells) inner))
  init_copies _ h ok = refl

  pub init_cells_copies :
      (cells : Cells) (h : Heap)
      → Live (cell_addresses cells) h.live
      → init_cells cells h ≡ some (renumber_cells cells h.next, grown (cell_size cells) h)
  init_cells_copies nil h ok = refl
  init_cells_copies (cons k o cells) h ok =
      let (first, second) = append-Live (addresses o) (cell_addresses cells) h.live ok in
      rw
        (
          init_copies o h first,
          init_cells_copies cells (grown (size o) h)
              (grown-Live (size o) h (cell_addresses cells) second),
          grown_next (size o) h,
          grown-add (size o) (cell_size cells) h,
        )
        refl
