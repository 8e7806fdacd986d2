-- ===== src/Variant/Memory/Fresh.antt =====
-- src/Variant.cpp: the objects of a copy are new, and the copy has the value of the original.
use ucxx.Base.{
  ℕ, suc, ◌+◌, ◌≤◌, ◌<◌, ◌≡◌, refl, List, [], ◌∷◌, ◌++◌, Bool, true, false, arith, All, All-append,
  inl, inr, ◌⊎◌, ◌∙◌,
}
use ucxx.Variant.Memory.{Heap, Object, Cells, string, list, map, nil, cons}
use ucxx.Variant.Memory.Clear.{
  addresses, cell_addresses, Deletable, without, occurs, without-lem, append-Deletable,
}
use ucxx.Variant.Memory.Copy.{size, cell_size, renumber, renumber_cells, grown, grown_live}

-- A Variant without its addresses.
unfoldable mutual
  pub value : Object → Object
  value (string a text) = string 0 text
  value (list a cells) = list 0 (cell_values cells)
  value (map a cells) = map 0 (cell_values cells)
  value o = o

  pub cell_values : Cells → Cells
  cell_values nil = nil
  cell_values (cons k o cells) = cons k (value o) (cell_values cells)

mutual
  unfolding value renumber

  pub value-renumber : (o : Object) (n : ℕ) → value (renumber o n) ≡ value o
  value-renumber (string a text) n = refl
  value-renumber (list a cells) n = rw (values-renumber cells (suc n)) refl
  value-renumber (map a cells) n = rw (values-renumber cells (suc n)) refl
  value-renumber _ n = refl

  pub values-renumber :
      (cells : Cells) (n : ℕ) → cell_values (renumber_cells cells n) ≡ cell_values cells
  values-renumber nil n = refl
  values-renumber (cons k o cells) n =
      rw (value-renumber o n, values-renumber cells (n + size o)) refl

abbrev pub IsWithin : ℕ → ℕ → ℕ → Type 0
IsWithin first last b = (first ≤ b) × (b < last)

widen : (xs : List ℕ) (a b c d : ℕ) → c ≤ a → b ≤ d → All (IsWithin a b) xs → All (IsWithin c d) xs
widen [] a b c d low high ok = tt
widen (x ∷ xs) a b c d low high (here, rest) =
    ((omega arith, omega arith), widen xs a b c d low high rest)

container-IsWithin :
    (xs : List ℕ) (n k : ℕ)
    → All (IsWithin (suc n) (suc n + k)) xs
    → All (IsWithin n (n + suc k)) (xs ++ n ∷ [])
container-IsWithin xs n k ok =
    All-append (IsWithin n (n + suc k)) xs (n ∷ [])
      (widen xs (suc n) (suc n + k) n (n + suc k) (omega arith) (omega arith) ok)
      ((omega arith, omega arith), tt)

mutual
  unfolding addresses renumber size

  pub addresses-IsWithin :
      (o : Object) (n : ℕ) → All (IsWithin n (n + size o)) (addresses (renumber o n))
  addresses-IsWithin (string a text) n = ((omega arith, omega arith), tt)
  addresses-IsWithin (list a cells) n = container-IsWithin _ n _ (cells-IsWithin cells (suc n))
  addresses-IsWithin (map a cells) n = container-IsWithin _ n _ (cells-IsWithin cells (suc n))
  addresses-IsWithin _ n = tt

  pub cells-IsWithin :
      (cells : Cells) (n : ℕ)
      → All (IsWithin n (n + cell_size cells)) (cell_addresses (renumber_cells cells n))
  cells-IsWithin nil n = tt
  cells-IsWithin (cons k o cells) n =
      All-append (IsWithin n (n + (size o + cell_size cells))) (addresses (renumber o n))
        (cell_addresses (renumber_cells cells (n + size o)))
        (widen _ n (n + size o) n (n + (size o + cell_size cells)) (omega arith) (omega arith)
          (addresses-IsWithin o n))
        (widen _ (n + size o) (n + size o + cell_size cells) n (n + (size o + cell_size cells))
          (omega arith) (omega arith) (cells-IsWithin cells (n + size o)))

pub outside :
    (xs : List ℕ) (first last b : ℕ)
    → All (IsWithin first last) xs
    → (b < first) ⊎ (last ≤ b)
    → occurs b xs ≡ false
outside [] first last b ok off = refl
outside (x ∷ xs) first last b (here, rest) off = ground (arith, outside xs first last b rest off)

abbrev pub IsFilled : ℕ → ℕ → (ℕ → Bool) → Type 0
IsFilled first last f = (b : ℕ) → IsWithin first last b → f b ≡ true

-- Deleting below a range leaves the range.
above-IsFilled :
    (xs : List ℕ) (lower first last : ℕ) (f : ℕ → Bool)
    → All (IsWithin lower first) xs
    → IsFilled first last f
    → IsFilled first last (without xs f)
above-IsFilled xs lower first last f within filled b (low, high) =
    let away : occurs b xs ≡ false = outside xs lower first b within (inr low) in
    without-lem xs f b ∙ rw (away) (filled b (low, high))

container-Deletable :
    (xs : List ℕ) (n k : ℕ) (f : ℕ → Bool)
    → All (IsWithin (suc n) (suc n + k)) xs
    → f n ≡ true
    → Deletable xs f
    → Deletable (xs ++ n ∷ []) f
container-Deletable xs n k f within here ok =
    let away : occurs n xs ≡ false = outside xs (suc n) (suc n + k) n within (inl (omega arith)) in
    append-Deletable xs (n ∷ []) f ok (without-lem xs f n ∙ rw (away) here, tt)

mutual
  unfolding addresses renumber size

  pub renumber-Deletable :
      (o : Object) (n : ℕ) (f : ℕ → Bool)
      → IsFilled n (n + size o) f
      → Deletable (addresses (renumber o n)) f
  renumber-Deletable (string a text) n f filled = (filled n (omega arith, omega arith), tt)
  renumber-Deletable (list a cells) n f filled =
      container-Deletable _ n _ f (cells-IsWithin cells (suc n))
        (filled n (omega arith, omega arith))
        (renumber_cells-Deletable cells (suc n) f
          (λ b within. filled b (omega (arith, within.0), omega (arith, within.1))))
  renumber-Deletable (map a cells) n f filled =
      container-Deletable _ n _ f (cells-IsWithin cells (suc n))
        (filled n (omega arith, omega arith))
        (renumber_cells-Deletable cells (suc n) f
          (λ b within. filled b (omega (arith, within.0), omega (arith, within.1))))
  renumber-Deletable _ n f filled = tt

  pub renumber_cells-Deletable :
      (cells : Cells) (n : ℕ) (f : ℕ → Bool)
      → IsFilled n (n + cell_size cells) f
      → Deletable (cell_addresses (renumber_cells cells n)) f
  renumber_cells-Deletable nil n f filled = tt
  renumber_cells-Deletable (cons k o cells) n f filled =
      append-Deletable (addresses (renumber o n)) _ f
        (renumber-Deletable o n f (λ b within. filled b (within.0, omega (arith, within.1))))
        (renumber_cells-Deletable cells (n + size o) (without (addresses (renumber o n)) f) (
          above-IsFilled _ n (n + size o) (n + size o + cell_size cells) f (addresses-IsWithin o n)
            (λ b within. filled b (omega (arith, within.0), omega (arith, within.1)))))

pub grown-IsFilled : (n : ℕ) (h : Heap) → IsFilled h.next (h.next + n) (grown n h).live
grown-IsFilled n h b (low, high) = ground (arith, grown_live n h b)
