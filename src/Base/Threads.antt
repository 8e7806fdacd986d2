-- ===== src/Base/Threads.antt =====
-- What each of the first `n` threads has: a family over thread numbers, its update, and sums.
use Prim.Native.Nat.{ℕ, zero, suc, ◌+◌, ◌≤◌, ◌<◌}
use mathlib.Core.Logic.{◌≢◌, inl, inr}
use mathlib.Core.Path.{◌≡◌, refl}
use native.Mathlib.Decide.{dec_lt}
use native.Mathlib.Omega.{arith}
use ucxx.Base.Tests.{Bool-cases, ◌==◌, if◌then◌else◌}

abbrev pub update {ℓ} : {A : Type ℓ} → (ℕ → A) → ℕ → A → ℕ → A
update f i a j = if i == j then a else f j

pub update-holds {ℓ} :
    {A : Type ℓ} (P : A → Type 0) (f : ℕ → A) (i : ℕ) (a : A) (j : ℕ)
    → (i ≡ j → P a)
    → (i ≢ j → P (f j))
    → P (update f i a j)
update-holds P f i a j new old = elim (Bool-cases (i == j)) [
  | inl same ↦ rw (same, update) (new (ground arith))
  | inr other ↦ rw (other, update) (old (ground arith))
]

module _ {ℓ} {A : Type ℓ} (weight : A → ℕ) where
  unfoldable pub total : ℕ → (ℕ → A) → ℕ
  total zero f = 0
  total (suc n) f = total n f + weight (f n)

  total-update_beyond :
      (i : ℕ) (x : A) (n : ℕ) (f : ℕ → A) → n ≤ i → total n (update f i x) ≡ total n f
  unfolding total
  total-update_beyond i x zero f h = refl
  total-update_beyond i x (suc n) f h = ground (arith, total-update_beyond i x n f)

  -- An update moves the sum by the difference at that thread.
  pub total-update :
      (n : ℕ) (f : ℕ → A) (i : ℕ) (x : A)
      → i < n
      → weight (f i) + total n (update f i x) ≡ weight x + total n f
  unfolding total
  total-update zero f i x h = absurd (omega arith)
  total-update (suc n) f i x h = elim (dec_lt i n) [
    | yes before ↦ ground (arith, total-update n f i x before)
    | no last ↦ ground (arith, total-update_beyond i x n f)
  ]

  -- Two threads together weigh no more than all.
  pub weight-le-total : (n : ℕ) (f : ℕ → A) (i : ℕ) → i < n → weight (f i) ≤ total n f
  unfolding total
  weight-le-total zero f i h = absurd (omega arith)
  weight-le-total (suc n) f i h = elim (dec_lt i n) [
    | yes before ↦ omega (arith, weight-le-total n f i before)
    | no last ↦ let e : i ≡ n = omega arith in rw e (omega arith)
  ]

  pub weights-le-total :
      (n : ℕ) (f : ℕ → A) (i j : ℕ) → i < j → j < n → weight (f i) + weight (f j) ≤ total n f
  unfolding total
  weights-le-total zero f i j lt h = absurd (omega arith)
  weights-le-total (suc n) f i j lt h = elim (dec_lt j n) [
    | yes before ↦ omega (arith, weights-le-total n f i j lt before)
    | no last ↦
        let e : j ≡ n = omega arith in rw e (omega (arith, weight-le-total n f i (omega arith)))
  ]

  pub total-zero : (n : ℕ) (f : ℕ → A) → ((i : ℕ) → weight (f i) ≡ 0) → total n f ≡ 0
  unfolding total
  total-zero zero f h = refl
  total-zero (suc n) f h = omega (arith, total-zero n f h, h n)

  -- An update keeps that no two threads weigh more than one together.
  pub exclusive-update :
      (f : ℕ → A) (i : ℕ) (x : A)
      → ((j k : ℕ) → j ≢ k → weight (f j) + weight (f k) ≤ 1)
      → ((j : ℕ) → i ≢ j → weight x + weight (f j) ≤ 1)
      → (j k : ℕ) → j ≢ k
      → weight (update f i x j) + weight (update f i x k) ≤ 1
  exclusive-update f i x apart alone j k ne =
      update-holds (λ y. weight y + weight (update f i x k) ≤ 1) f i x j
        (λ at_j.
          update-holds (λ y. weight x + weight y ≤ 1) f i x k
            (λ at_k. absurd (ne (cc (at_j, at_k)))) (λ nk. alone k nk))
        (λ nj.
          update-holds (λ y. weight (f j) + weight y ≤ 1) f i x k
            (λ at_k. omega (arith, alone j nj)) (λ nk. apart j k ne))
