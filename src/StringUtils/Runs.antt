-- ===== src/StringUtils/Runs.antt =====
-- src/StringUtils.cpp: the runs of white space that the searches find, and what rtrim and ltrim
-- leave.
use ucxx.Base.{
  ℕ, zero, suc, ◌+◌, ◌%◌, ◌^◌, ◌≤◌, ◌<◌, ◌≡◌, ◌≢◌, ◌⊎◌, inl, inr, refl, sym, ap, ◌∙◌, List, [], ◌∷◌,
  ◌++◌, Option, some, true, false, arith, length, take, drop, take-append-drop, All, Bool-cases,
}
use ucxx.StringUtils.{npos, contains, first_not_of, last_not_of, erase, white_space, rtrim, ltrim}

-- Every character is one of `t`.
abbrev pub Within : List ℕ → List ℕ → Type 0
Within t = All λ c. contains t c ≡ true

-- The text is empty, or its first (last) character is not one of `t`.
abbrev pub StartsOutside : List ℕ → List ℕ → Type 0
StartsOutside t [] = Unit {0}
StartsOutside t (c ∷ s) = contains t c ≡ false

abbrev pub EndsOutside : List ℕ → List ℕ → Type 0
EndsOutside t [] = Unit {0}
EndsOutside t (c ∷ []) = contains t c ≡ false
EndsOutside t (c ∷ d ∷ s) = EndsOutside t (d ∷ s)

-- first_not_of finds the end of the leading run.
first_not_of-lem :
    (t s : List ℕ) (i : ℕ)
    → length s + i < npos
    → (n : ℕ) × ((first_not_of t s i ≡ i + n) ⊎ ((first_not_of t s i ≡ npos) × (n ≡ length s)))
      × Within t (take n s)
      × StartsOutside t (drop n s)
      × (n ≤ length s)
unfolding first_not_of
first_not_of-lem t [] i h = (0, inr (refl, refl), tt, tt, omega arith)
first_not_of-lem t (c ∷ s) i h = elim (Bool-cases (contains t c)) [
  | inr out ↦ (0, inl (ground arith), tt, out, omega arith)
  | inl within ↦
      let (n, found, w, o, le) = first_not_of-lem t s (i + 1) (omega arith) in
      (suc n, ground arith, (within, w), o, omega arith)
]

EndsOutside-cons :
    (t : List ℕ) (c : ℕ) (r : List ℕ) → r ≢ [] → EndsOutside t r → EndsOutside t (c ∷ r)
EndsOutside-cons t c [] ne h = absurd (ne refl)
EndsOutside-cons t c (d ∷ r) ne h = h

-- last_not_of finds the character before the trailing run.
last_not_of-lem :
    (t s : List ℕ) (i : ℕ)
    → length s + i < npos
    → ((last_not_of t s i ≡ npos) × Within t s)
      ⊎ ((k : ℕ) × (last_not_of t s i ≡ i + k)
          × (k < length s)
          × EndsOutside t (take (suc k) s)
          × Within t (drop (suc k) s))
unfolding last_not_of
last_not_of-lem t [] i h = inl (refl, tt)
last_not_of-lem t (c ∷ s) i h = elim (last_not_of-lem t s (i + 1) (omega arith)) [
  | inr (k, found, lt, ends, w) ↦
      inr (suc k, ground arith, omega arith, EndsOutside-cons t c _ (take-ne-nil k s lt) ends, w)
  | inl (none_later, w) ↦ elim (Bool-cases (contains t c)) [
    | inl within ↦ inl (ground arith, (within, w))
    | inr out ↦ inr (0, ground arith, omega arith, out, w)
  ]
]
  where
    take-ne-nil : (k : ℕ) (s : List ℕ) → k < length s → take (suc k) s ≢ []
    take-ne-nil k [] lt = absurd (omega arith)
    take-ne-nil k (d ∷ s) lt = λ e. cc

drop-all : (s : List ℕ) (n : ℕ) → length s ≤ n → drop n s ≡ []
drop-all [] zero h = refl
drop-all [] (suc n) h = refl
drop-all (c ∷ s) zero h = absurd (omega arith)
drop-all (c ∷ s) (suc n) h = drop-all s n (omega arith)

erase-front :
    (s : List ℕ) (pos : ℕ) → pos ≤ length s → length s ≤ npos → erase s pos npos ≡ some (take pos s)
unfolding erase
erase-front s zero h small = ap some (drop-all s npos small)
erase-front [] (suc pos) h small = absurd (omega arith)
erase-front (c ∷ s) (suc pos) h small = ground (arith, erase-front s pos)

take-drop : (n : ℕ) (s : List ℕ) → s ≡ take n s ++ drop n s
take-drop n s = sym (take-append-drop n s)

-- Trimming on the right removes the longest run of white space at the end.
pub rtrim_parts :
    (s : List ℕ) (o : Option (List ℕ))
    → length s < npos
    → (r w : List ℕ) × (rtrim s o ≡ some r)
      × (s ≡ r ++ w)
      × Within (white_space o) w
      × EndsOutside (white_space o) r
unfolding rtrim
rtrim_parts s o small = elim (last_not_of-lem (white_space o) s 0 (omega arith)) [
  | inl (none_kept, w) ↦
      ([], s, rw none_kept (erase-front s 0 (omega arith) (omega arith)), refl, w, tt)
  | inr (k, found, lt, ends, w) ↦ (
    take (suc k) s,
    drop (suc k) s,
    rw found (rw (wraps k (omega arith)) (erase-front s (suc k) lt (omega arith))),
    take-drop (suc k) s,
    w,
    ends,
  )
]
  where
    wraps : (k : ℕ) → k + 1 < npos → (0 + k + 1) % 2 ^ 64 ≡ suc k
    wraps k lt = omega arith

-- Trimming on the left removes the longest run of white space at the front.
pub ltrim_parts :
    (s : List ℕ) (o : Option (List ℕ))
    → length s < npos
    → (w r : List ℕ) × (ltrim s o ≡ some r)
      × (s ≡ w ++ r)
      × Within (white_space o) w
      × StartsOutside (white_space o) r
unfolding ltrim erase
ltrim_parts s o small =
    let (n, found, w, outside, le) = first_not_of-lem (white_space o) s 0 (omega arith) in
    (take n s, drop n s, ap some (cut n found), take-drop n s, w, outside)
  where
    cut :
        (n : ℕ)
        → (first_not_of (white_space o) s 0 ≡ 0 + n)
          ⊎ ((first_not_of (white_space o) s 0 ≡ npos) × (n ≡ length s))
        → drop (first_not_of (white_space o) s 0) s ≡ drop n s
    cut n (inl e) = ap (λ (k : ℕ). drop k s) (e ∙ omega arith)
    cut n (inr (e, all)) =
        ap (λ (k : ℕ). drop k s) e
        ∙ drop-all s npos (omega arith)
        ∙ sym (drop-all s n (omega arith))
