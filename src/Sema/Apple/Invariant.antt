-- ===== src/Sema/Apple/Invariant.antt =====
-- src/Sema.cpp under __APPLE__: m_count is what its mutex protects.
use ucxx.Base.{
  ℕ, ◌+◌, ◌≤◌, ◌<◌, ◌≡◌, ◌≢◌, ◌⊎◌, refl, sym, Bool, true, false, Option, none, some, inl, inr,
  arith,
}
use ucxx.Base.Threads.{exclusive-update, update, update-holds}
use ucxx.Posix.{Posix}
use ucxx.Sema.Apple.{
  Access, first, again, reads, adds, Pc, tests, loads, stores, unlocks, Semaphore, enters, leaves,
  moves,
}

abbrev pub holds : Pc → ℕ
holds (tests a) = 1
holds (loads a) = 1
holds (stores a c) = 1
holds (unlocks a took) = 1
holds _ = 0

-- What an access has seen of m_count, before it changes it.
abbrev pub Takes : Access → ℕ → Type 0
Takes (first timed) count = 0 < count
Takes again count = 0 < count
Takes _ count = Unit {0}

abbrev pub Sees : Pc → ℕ → Type 0
Sees (loads a) count = Takes a count
Sees (stores a c) count = (c ≡ count) × Takes a count
Sees _ count = Unit {0}

pub Sees-nothing : (x : Pc) (c : ℕ) → holds x ≡ 0 → Sees x c
Sees-nothing (tests a) c h = tt
Sees-nothing (loads a) c h = absurd (omega arith)
Sees-nothing (stores a b) c h = absurd (omega arith)
Sees-nothing _ c h = tt

pub holds_enters : (a : Access) → holds (enters a) ≡ 1
holds_enters (first timed) = refl
holds_enters again = refl
holds_enters reads = refl
holds_enters (adds n) = refl

pub holds_leaves : (a : Access) (took : Bool) → holds (leaves a took) ≡ 0
holds_leaves (first timed) true = refl
holds_leaves (first timed) false = refl
holds_leaves again took = refl
holds_leaves reads took = refl
holds_leaves (adds n) took = refl

module _ (p : Posix) (initial : ℕ) where
  open p use {held, held-lock, held-unlock, lock-blocks, held-init}

  pub record Inv (s : Semaphore p) : Type 0 where
    pub holding : (i : ℕ) → held s.count_mutex i ≡ holds (s.pcs i)
    pub exclusive : (i j : ℕ) → i ≢ j → holds (s.pcs i) + holds (s.pcs j) ≤ 1
    pub seen : (i : ℕ) → Sees (s.pcs i) s.count
    pub balance : s.count + s.taken ≡ initial + s.given

  abbrev pub Kept : Option (Semaphore p) → Type 0
  Kept none = Unit {0}
  Kept (some u) = Inv u

  -- A step of thread `i` to `x`, in a state `u` that else differs in the counts and the mutexes
  -- only.
  pub step-Inv :
      (s u : Semaphore p) (i : ℕ) (x : Pc)
      → Inv s
      → u.pcs ≡ update s.pcs i x
      → held u.count_mutex i ≡ holds x
      → ((j : ℕ) → i ≢ j → held u.count_mutex j ≡ held s.count_mutex j)
      → ((j : ℕ) → i ≢ j → holds x + holds (s.pcs j) ≤ 1)
      → Sees x u.count
      → (u.count ≡ s.count) ⊎ (holds (s.pcs i) ≡ 1)
      → u.count + u.taken ≡ initial + u.given
      → Inv u
  step-Inv s u i x inv moved own others alone sees same balance = record {
    holding = λ j. rw moved (
        update-holds (λ y. held u.count_mutex j ≡ holds y) s.pcs i x j (λ e. rw (sym e) own)
          (λ ne. omega (arith, others j ne, inv.holding j)));
    exclusive = λ j k ne. rw moved (exclusive-update holds s.pcs i x inv.exclusive alone j k ne);
    seen = λ j. rw moved (
        update-holds (λ y. Sees y u.count) s.pcs i x j (λ _. sees)
          (λ ne. elim same [
            | inl unchanged ↦ rw unchanged (inv.seen j)
            | inr inside ↦ Sees-nothing (s.pcs j) u.count (omega (arith, inv.exclusive i j ne))
          ]));
    balance = balance;
  }

  -- A step outside the sections: the counter and its mutex stay.
  pub plain-Inv :
      (s : Semaphore p) (w : p.MutexState) (i : ℕ) (x : Pc)
      → Inv s
      → holds (s.pcs i) ≡ 0
      → holds x ≡ 0
      → Inv (record (moves p s i x) { wait_mutex = w })
  plain-Inv s w i x inv outside_before outside_after =
      step-Inv s (record (moves p s i x) { wait_mutex = w }) i x inv refl
        (omega (arith, inv.holding i)) (λ j ne. refl) (λ j ne. omega (arith, inv.exclusive i j ne))
        (Sees-nothing x s.count outside_after) (inl refl) inv.balance

  -- A step in a section, before the counter is changed.
  pub inside-Inv :
      (s : Semaphore p) (i : ℕ) (x : Pc)
      → Inv s
      → holds (s.pcs i) ≡ 1
      → holds x ≡ 1
      → Sees x s.count
      → Inv (moves p s i x)
  inside-Inv s i x inv inside_before inside_after sees =
      step-Inv s (moves p s i x) i x inv refl (omega (arith, inv.holding i)) (λ j ne. refl)
        (λ j ne. omega (arith, inv.exclusive i j ne)) sees (inl refl) inv.balance
