-- ===== src/Variant/Keys.antt =====
-- The keys of a VariantMap: std::string and its order, which compares bytes as unsigned characters.
use Prim.Native.Nat.{compare, Ordering}
use ucxx.Base.{ℕ, List, [], ◌∷◌, ◌≡◌, Bool, true, false, refl, arith, ◌==◌, ◌&&◌}

abbrev pub Key : Type 0
Key = List ℕ

unfoldable pub text_eq : List ℕ → List ℕ → Bool
text_eq [] [] = true
text_eq [] (d ∷ t) = false
text_eq (c ∷ s) [] = false
text_eq (c ∷ s) (d ∷ t) = c == d && text_eq s t

-- std::string::compare
unfoldable pub compare_keys : Key → Key → Ordering
compare_keys [] [] = Ordering.eq
compare_keys [] (d ∷ t) = Ordering.lt
compare_keys (c ∷ s) [] = Ordering.gt
compare_keys (c ∷ s) (d ∷ t) = elim (compare c d) [
  | Ordering.lt ↦ Ordering.lt
  | Ordering.gt ↦ Ordering.gt
  | Ordering.eq ↦ compare_keys s t
]

pub compare_keys-flip :
    (a b : Key) → compare_keys a b ≡ Ordering.lt → compare_keys b a ≡ Ordering.gt
unfolding compare_keys
compare_keys-flip [] [] h = cc
compare_keys-flip [] (d ∷ t) h = refl
compare_keys-flip (c ∷ s) [] h = cc
compare_keys-flip (c ∷ s) (d ∷ t) h = ground (arith, compare_keys-flip s t)

pub compare_keys-flip_gt :
    (a b : Key) → compare_keys a b ≡ Ordering.gt → compare_keys b a ≡ Ordering.lt
unfolding compare_keys
compare_keys-flip_gt [] [] h = cc
compare_keys-flip_gt [] (d ∷ t) h = cc
compare_keys-flip_gt (c ∷ s) [] h = refl
compare_keys-flip_gt (c ∷ s) (d ∷ t) h = ground (arith, compare_keys-flip_gt s t)

pub compare_keys-eq : (a b : Key) → compare_keys a b ≡ Ordering.eq → a ≡ b
unfolding compare_keys
compare_keys-eq [] [] h = refl
compare_keys-eq [] (d ∷ t) h = cc
compare_keys-eq (c ∷ s) [] h = cc
compare_keys-eq (c ∷ s) (d ∷ t) h = ground (arith, compare_keys-eq s t)

pub compare_keys_trans :
    (a b c : Key)
    → compare_keys a b ≡ Ordering.lt
    → compare_keys b c ≡ Ordering.lt
    → compare_keys a c ≡ Ordering.lt
unfolding compare_keys
compare_keys_trans [] [] c h k = cc
compare_keys_trans [] (y ∷ b) [] h k = cc
compare_keys_trans [] (y ∷ b) (z ∷ c) h k = refl
compare_keys_trans (x ∷ a) [] c h k = cc
compare_keys_trans (x ∷ a) (y ∷ b) [] h k = cc
compare_keys_trans (x ∷ a) (y ∷ b) (z ∷ c) h k = ground (arith, compare_keys_trans a b c)

pub text_eq_refl : (s : List ℕ) → text_eq s s ≡ true
unfolding text_eq
text_eq_refl [] = refl
text_eq_refl (c ∷ s) = ground (arith, text_eq_refl s)
