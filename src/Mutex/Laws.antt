-- ===== src/Mutex/Laws.antt =====
-- src/Mutex.cpp: a lock and its release.
use ucxx.Base.{
  ℕ, zero, suc, ◌+◌, ◌<◌, ◌≡◌, ◌≢◌, refl, sym, Bool-cases, false, Option, none, some, arith, ◌==◌,
  inl, inr, Option-cases,
}
use native.Mathlib.Decide.{dec_lt}
use ucxx.Posix.{Posix}
use ucxx.Mutex.{lock, unlock, try_lock, locker_construct, locker_destroy}

module _ (p : Posix) where
  open p use {
    MutexState, held, mutex_lock, mutex_unlock, held-lock, held-unlock, lock-blocks, lock-enters,
    trylock-lock,
  }

  -- A thread that gets the mutex is the only one to hold it.
  pub lock-free : (m m' : MutexState) (i j : ℕ) → i ≢ j → mutex_lock m i ≡ some m' → held m j ≡ 0
  lock-free m m' i j other enters = elim (dec_lt 0 (held m j)) [
    | yes some_held ↦ absurd (cc (enters, lock-blocks m i j other some_held))
    | no none_held ↦ omega arith
  ]

  -- The locks that a thread has of the mutex behind a pointer.
  abbrev pub locks : Option MutexState → ℕ → ℕ
  locks none j = 0
  locks (some m) j = held m j

  -- Locking `n` times, and unlocking `n` times.
  unfoldable pub lock_times : ℕ → MutexState → ℕ → Option MutexState
  lock_times zero m i = some m
  lock_times (suc n) m i = elim (lock p m i) [ none ↦ none | some m' ↦ lock_times n m' i ]

  unfoldable pub unlock_times : ℕ → MutexState → ℕ → MutexState
  unlock_times zero m i = m
  unlock_times (suc n) m i = unlock_times n (unlock p m i) i

  lock-alone :
      (m : MutexState) (i : ℕ)
      → ((j : ℕ) → i ≢ j → held m j ≡ 0)
      → (m' : MutexState) × (lock p m i ≡ some m')
        × (held m' i ≡ suc (held m i))
        × ((j : ℕ) → i ≢ j → held m' j ≡ 0)
  unfolding lock
  lock-alone m i alone =
      let (m', e) = lock-enters m i alone in
      (
        m',
        e,
        ground (arith, held-lock m m' i i e),
        λ j ne. ground (arith, held-lock m m' i j e, alone j ne),
      )

  lock_times-held :
      (n : ℕ) (m : MutexState) (i : ℕ)
      → ((j : ℕ) → i ≢ j → held m j ≡ 0)
      → (m' : MutexState) × (lock_times n m i ≡ some m')
        × (held m' i ≡ n + held m i)
        × ((j : ℕ) → i ≢ j → held m' j ≡ 0)
  unfolding lock_times
  lock_times-held zero m i alone = (m, refl, omega arith, alone)
  lock_times-held (suc n) m i alone =
      let (m₁, e₁, own₁, alone₁) = lock-alone m i alone in
      let (m₂, e₂, own₂, alone₂) = lock_times-held n m₁ i alone₁ in
      (m₂, rw (e₁, lock_times) e₂, omega arith, alone₂)

  unlock_times-held :
      (n : ℕ) (m : MutexState) (i : ℕ)
      → held m i ≡ n
      → ((j : ℕ) → i ≢ j → held m j ≡ 0)
      → (j : ℕ) → held (unlock_times n m i) j ≡ 0
  unfolding unlock_times unlock
  unlock_times-held zero m i own alone j = elim (Bool-cases (i == j)) [
    | inl same ↦ ground arith
    | inr other ↦ alone j (ground arith)
  ]
  unlock_times-held (suc n) m i own alone j =
      unlock_times-held n (unlock p m i) i (ground (arith, held-unlock m i i))
        (λ k ne. ground (arith, held-unlock m i k, alone k ne)) j

  -- The mutex is recursive: a thread that is the only one with locks can lock it `n` times more
  -- without blocking. While it holds a lock every other thread blocks on lock(), and is refused by
  -- tryLock(). When it has unlocked as often as it has locked, nobody holds the mutex.
  pub lock_times-unlock_times :
      (n : ℕ) (m : MutexState) (i : ℕ)
      → ((j : ℕ) → held m j ≡ 0)
      → (m' : MutexState) × (lock_times n m i ≡ some m')
        × (held m' i ≡ n)
        × ((j : ℕ) → 0 < n → i ≢ j → (lock p m' j ≡ none) × (try_lock p m' j ≡ (m', false)))
        × ((j : ℕ) → held (unlock_times n m' i) j ≡ 0)
  unfolding lock try_lock
  lock_times-unlock_times n m i free =
      let (m', e, own, alone) = lock_times-held n m i (λ j _. free j) in
      let all : held m' i ≡ n = omega (arith, free i) in
      (
        m',
        e,
        all,
        λ j pos ne. refused m' j (lock-blocks m' j i (λ q. ne (sym q)) (omega arith)),
        unlock_times-held n m' i all alone,
      )
    where
      refused :
          (m' : MutexState) (j : ℕ)
          → mutex_lock m' j ≡ none
          → (mutex_lock m' j ≡ none) × (try_lock p m' j ≡ (m', false))
      refused m' j e = (e, rw (trylock-lock m' j, e, try_lock))

  -- A MutexLocker that is constructed and destroyed by one thread leaves every thread with the
  -- locks that it had; with a null pointer it does nothing.
  pub locker_destroy-locker_construct :
      (o : Option MutexState) (i : ℕ) (l : Option MutexState)
      → locker_construct p o i ≡ some l
      → (j : ℕ) → locks (locker_destroy p l i) j ≡ locks o j
  unfolding locker_construct locker_destroy lock unlock
  locker_destroy-locker_construct none i l h j = ground arith
  locker_destroy-locker_construct (some m) i l h j = elim (Option-cases (mutex_lock m i)) [
    | inl e ↦ ground arith
    | inr (m', e) ↦
        let same : l ≡ some m' = ground arith in
        rw same (ground (arith, held-lock m m' i i e, held-lock m m' i j e, held-unlock m' i j))
  ]
