-- ===== src/Variant/Text.antt =====
-- src/Variant.cpp: toString, against a description of the text as a whole.
use ucxx.Base.{
  ◌≡◌, sym, ap, ◌∙◌, List, [], ◌∷◌, ◌++◌, append_assoc, append-nil, true, false, codes, ℕ,
}
use ucxx.Variant.{
  Double, VariantList, VariantMap, list, map, nil, cons, end, entry, to_string, list_loop, map_loop,
}

-- The texts with ", " between each two of them.
abbrev after_comma : List (List ℕ) → List ℕ
after_comma [] = []
after_comma (t ∷ ts) = codes ", " ++ (t ++ after_comma ts)

abbrev pub comma_separated : List (List ℕ) → List ℕ
comma_separated [] = []
comma_separated (t ∷ ts) = t ++ after_comma ts

module _ (d : Double) where
  abbrev pub element_texts : VariantList → List (List ℕ)
  element_texts nil = []
  element_texts (cons v l) = to_string d v [] ∷ element_texts l

  abbrev pub entry_texts : VariantMap → List (List ℕ)
  entry_texts end = []
  entry_texts (entry k v m) = (k ++ (codes ": " ++ to_string d v [])) ∷ entry_texts m

  list_loop-after :
      (l : VariantList) (res : List ℕ)
      → list_loop d l res false ≡ res ++ after_comma (element_texts l)
  unfolding to_string
  list_loop-after nil res = sym (append-nil res)
  list_loop-after (cons v l) res =
      list_loop-after l ((res ++ codes ", ") ++ to_string d v []) ∙ simp append_assoc

  list_loop-first :
      (l : VariantList) (res : List ℕ)
      → list_loop d l res true ≡ res ++ comma_separated (element_texts l)
  unfolding to_string
  list_loop-first nil res = sym (append-nil res)
  list_loop-first (cons v l) res = list_loop-after l (res ++ to_string d v []) ∙ simp append_assoc

  map_loop-separated :
      (m : VariantMap) (res : List ℕ) → map_loop d m res ≡ res ++ comma_separated (entry_texts m)
  unfolding to_string
  map_loop-separated end res = sym (append-nil res)
  map_loop-separated (entry k v end) res = simp (append_assoc, append-nil)
  map_loop-separated (entry k v (entry j w m)) res =
      map_loop-separated (entry j w m)
        ((((res ++ k) ++ codes ": ") ++ to_string d v []) ++ codes ", ")
      ∙ simp append_assoc

  -- A list is printed as "[", its elements with ", " between each two, and "]"; a map as "{", its
  -- entries, each a key, ": " and a value, with ", " between each two, and "}".
  pub to_string_containers :
      (l : VariantList) (m : VariantMap) (def : List ℕ)
      → (to_string d (list l) def ≡ codes "[" ++ (comma_separated (element_texts l) ++ codes "]"))
        × (to_string d (map m) def ≡ codes "{" ++ (comma_separated (entry_texts m) ++ codes "}"))
  unfolding to_string
  to_string_containers l m def = (
    ap (λ t. t ++ codes "]") (list_loop-first l (codes "["))
        ∙ append_assoc (codes "[") (comma_separated (element_texts l)) (codes "]"),
    ap (λ t. t ++ codes "}") (map_loop-separated m (codes "{"))
        ∙ append_assoc (codes "{") (comma_separated (entry_texts m)) (codes "}"),
  )
