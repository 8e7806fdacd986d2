-- ===== src/StringUtils/Trim.antt =====
-- src/StringUtils.cpp: what trim leaves and what it removes.
use ucxx.Base.{
  ℕ, ◌≤◌, ◌<◌, ◌≡◌, refl, sym, ap, subst, ◌∙◌, List, [], ◌∷◌, ◌++◌, Option, some, arith, length,
  length-append, append_assoc, append-nil,
}
use ucxx.StringUtils.{npos, white_space, rtrim, ltrim, trim}
use ucxx.StringUtils.Runs.{Within, StartsOutside, EndsOutside, rtrim_parts, ltrim_parts}

EndsOutside-tail : (t : List ℕ) (w r : List ℕ) → EndsOutside t (w ++ r) → EndsOutside t r
EndsOutside-tail t [] r h = h
EndsOutside-tail t (c ∷ w) [] h = tt
EndsOutside-tail t (c ∷ []) (d ∷ r) h = h
EndsOutside-tail t (c ∷ e ∷ w) (d ∷ r) h = EndsOutside-tail t (e ∷ w) (d ∷ r) h

-- What `trim` leaves of a text: the text without white space at its front and its back.
pub record Trimmed (t s r : List ℕ) : Type 0 where
  pub front : List ℕ
  pub back : List ℕ
  pub whole : s ≡ front ++ (r ++ back)
  pub front_white : Within t front
  pub back_white : Within t back
  pub starts : StartsOutside t r
  pub ends : EndsOutside t r

trim_compose :
    (s m r back front : List ℕ) (o : Option (List ℕ))
    → rtrim s (some (white_space o)) ≡ some m
    → s ≡ m ++ back
    → ltrim m (some (white_space o)) ≡ some r
    → m ≡ front ++ r
    → (trim s o ≡ some r) × (s ≡ front ++ (r ++ back))
unfolding trim
trim_compose s m r back front o right cut left cut' =
    (rw (right, trim) left, cut ∙ ap (λ x. x ++ back) cut' ∙ append_assoc front r back)

-- Trimming at both ends never throws, and cuts the text into white space, the result, and white
-- space; the result neither begins nor ends with white space.
pub trim_parts :
    (s : List ℕ) (o : Option (List ℕ))
    → length s < npos
    → (r : List ℕ) × (trim s o ≡ some r) × Trimmed (white_space o) s r
trim_parts s o small =
    let (m, back, right, cut, wb, ends) = rtrim_parts s (some (white_space o)) small in
    let (front, r, left, cut', wf, starts) =
      ltrim_parts m (some (white_space o)) (omega (arith, ap length cut, length-append m back)) in
    let (trimmed, whole) = trim_compose s m r back front o right cut left cut' in
    (
      r,
      trimmed,
      record {
        front = front;
        back = back;
        whole = whole;
        front_white = wf;
        back_white = wb;
        starts = starts;
        ends = EndsOutside-tail _ front r (subst (EndsOutside (white_space o)) cut' ends);
      },
    )

front-empty : (t front r : List ℕ) → Within t front → StartsOutside t (front ++ r) → front ≡ []
front-empty t [] r w o = refl
front-empty t (c ∷ front) r w o = cc (w.0, o)

back-empty : (t r back : List ℕ) → Within t back → EndsOutside t (r ++ back) → back ≡ []
back-empty t r [] w h = refl
back-empty t r (c ∷ back) w h = absurd (outside c back (EndsOutside-tail t r (c ∷ back) h) w)
  where
    outside : (c : ℕ) (back : List ℕ) → EndsOutside t (c ∷ back) → ¬ Within t (c ∷ back)
    outside c [] h w = cc (h, w.0)
    outside c (d ∷ back) h w = outside d back h w.1

-- A text that neither begins nor ends with white space leaves nothing to trim.
Trimmed-same : (t s r : List ℕ) → StartsOutside t s → EndsOutside t s → Trimmed t s r → r ≡ s
Trimmed-same t s r starts ends cut =
    sym (append-nil r)
    ∙ ap (λ x. r ++ x) (sym no_back)
    ∙ ap (λ x. x ++ (r ++ back)) (sym no_front)
    ∙ sym whole
  where
    open cut use {front, back, whole, front_white, back_white}

    no_front : front ≡ []
    no_front = front-empty t front (r ++ back) front_white (subst (StartsOutside t) whole starts)

    no_back : back ≡ []
    no_back =
        back-empty t (front ++ r) back back_white
          (subst (EndsOutside t) (whole ∙ sym (append_assoc front r back)) ends)

length-Trimmed : (t s r : List ℕ) → Trimmed t s r → length r ≤ length s
length-Trimmed t s r cut =
    omega (
      arith,
      ap length cut.whole,
      length-append cut.front (r ++ cut.back),
      length-append r cut.back,
    )

-- Trimming a second time changes nothing.
pub trim_twice :
    (s r : List ℕ) (o : Option (List ℕ)) → length s < npos → trim s o ≡ some r → trim r o ≡ some r
trim_twice s r o small h =
    let (first, once, cut) = trim_parts s o small in again first cut (cc once)
  where
    again : (first : List ℕ) → Trimmed (white_space o) s first → first ≡ r → trim r o ≡ some r
    again first cut same =
        let cut' = subst (Trimmed (white_space o) s) same cut in
        let (second, twice, cut'') = trim_parts r o (omega (arith, length-Trimmed _ s r cut')) in
        twice ∙ ap some (Trimmed-same _ r second cut'.starts cut'.ends cut'')
