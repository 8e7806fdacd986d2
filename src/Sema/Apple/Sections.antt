-- ===== src/Sema/Apple/Sections.antt =====
-- src/Sema.cpp under __APPLE__: the critical sections of m_countMutex keep what it protects.
use ucxx.Base.{
  ℕ, suc, ◌+◌, ◌-◌, ◌<◌, ◌≡◌, refl, Bool, true, false, ◌==◌, inl, inr, Option-cases, Bool-cases,
  arith,
}
use ucxx.Mutex.Laws.{lock-free}
use ucxx.Posix.{Posix}
use ucxx.Sema.Apple.{
  Access, first, again, reads, adds, Pc, locks, tests, loads, stores, unlocks, Semaphore, go,
  enters, leaves, moves, store, next,
}
use ucxx.Sema.Apple.Invariant.{
  Sees, Takes, holds, Sees-nothing, holds_enters, holds_leaves, Inv, Kept, step-Inv, inside-Inv,
}

module _ (p : Posix) (initial : ℕ) where
  open p use {held, held-lock, held-unlock}

  pub lock-Kept :
      (i : ℕ) (s : Semaphore p) (a : Access)
      → s.pcs i ≡ locks a
      → Inv p initial s
      → Kept p initial (next p go i s (locks a))
  unfolding next
  lock-Kept i s a was inv = elim (Option-cases (p.mutex_lock s.count_mutex i)) [
    | inl blocks ↦ rw (blocks, Kept, next) tt
    | inr (m, e) ↦
        let outside_before : holds (s.pcs i) ≡ 0 = cc was in
        rw (e, Kept, next)
          (step-Inv p initial s (record (moves p s i (enters a)) { count_mutex = m }) i (enters a)
            inv refl
            (ground (arith, held-lock s.count_mutex m i i e, inv.holding i, holds_enters a))
            (λ j ne. ground (arith, held-lock s.count_mutex m i j e))
            (λ j ne.
              omega (arith, holds_enters a, lock-free p s.count_mutex m i j ne e, inv.holding j))
            (enters_sees a s.count) (inl refl) inv.balance)
  ]
    where
      enters_sees : (a : Access) (c : ℕ) → Sees (enters a) c
      enters_sees (first timed) c = tt
      enters_sees again c = tt
      enters_sees reads c = tt
      enters_sees (adds n) c = tt

  pub test-Kept :
      (i : ℕ) (s : Semaphore p) (a : Access)
      → s.pcs i ≡ tests a
      → Inv p initial s
      → Kept p initial (next p go i s (tests a))
  unfolding next
  test-Kept i s a was inv = elim (Bool-cases (s.count == 0)) [
    | inl out ↦ rw out (inside-Inv p initial s i (unlocks a false) inv (cc was) refl tt)
    | inr left ↦
        rw left
          (inside-Inv p initial s i (loads a) inv (cc was) refl (may_take a s.count (ground arith)))
  ]
    where
      may_take : (a : Access) (c : ℕ) → 0 < c → Takes a c
      may_take (first timed) c h = h
      may_take again c h = h
      may_take reads c h = tt
      may_take (adds n) c h = tt

  stored-Inv :
      (s : Semaphore p) (i : ℕ) (x : Pc) (count given taken : ℕ)
      → Inv p initial s
      → holds (s.pcs i) ≡ 1
      → holds x ≡ 1
      → Sees x count
      → count + taken ≡ initial + given
      → Inv p initial (record (moves p s i x) { count = count; given = given; taken = taken })
  stored-Inv s i x count given taken inv before after sees balance =
      step-Inv p initial s (record (moves p s i x) { count = count; given = given; taken = taken })
        i x inv refl (omega (arith, inv.holding i)) (λ j ne. refl)
        (λ j ne. omega (arith, inv.exclusive i j ne)) sees (inr before) balance

  pub store-Inv :
      (i : ℕ) (s : Semaphore p) (a : Access) (c : ℕ)
      → s.pcs i ≡ stores a c
      → Inv p initial s
      → Sees (stores a c) s.count
      → Inv p initial (store p i s a c)
  unfolding store
  store-Inv i s (adds n) c was inv (same, _) =
      stored-Inv s i (unlocks (adds n) true) (suc c) (suc s.given) s.taken inv (cc was) refl tt
        (omega (arith, inv.balance))
  store-Inv i s (first timed) c was inv (same, some_left) =
      stored-Inv s i (unlocks (first timed) true) (c - 1) s.given (suc s.taken) inv (cc was) refl tt
        (omega (arith, inv.balance))
  store-Inv i s again c was inv (same, some_left) =
      stored-Inv s i (unlocks again true) (c - 1) s.given (suc s.taken) inv (cc was) refl tt
        (omega (arith, inv.balance))
  store-Inv i s reads c was inv sees =
      inside-Inv p initial s i (unlocks reads true) inv (cc was) refl tt

  pub unlock-Kept :
      (i : ℕ) (s : Semaphore p) (a : Access) (took : Bool)
      → s.pcs i ≡ unlocks a took
      → Inv p initial s
      → Kept p initial (next p go i s (unlocks a took))
  unfolding next
  unlock-Kept i s a took was inv =
      let inside : holds (s.pcs i) ≡ 1 = cc was in
      step-Inv p initial s
        (record (moves p s i (leaves a took)) { count_mutex = p.mutex_unlock s.count_mutex i }) i
        (leaves a took) inv refl
        (ground (arith, held-unlock s.count_mutex i i, inv.holding i, holds_leaves a took))
        (λ j ne. ground (arith, held-unlock s.count_mutex i j, inv.holding i))
        (λ j ne. omega (arith, holds_leaves a took, inv.exclusive i j ne))
        (Sees-nothing (leaves a took) s.count (holds_leaves a took)) (inl refl) inv.balance
