-- ===== src/Mutex/Win32/Abandoned.antt =====
-- src/Mutex.cpp under WIN32: a mutex whose owner has been terminated.
use ucxx.Base.{ℕ, ◌<◌, ◌≡◌, ◌≢◌, refl, sym, true, false, arith}
use ucxx.Mutex.Win32.{Kernel, blocks, asserts, lock, unlock, try_lock}

module _ (k : Kernel) where
  open k use {
    HandleState, owned, is_abandoned, wait_for_single_object, terminate_thread, wait-blocks,
    wait-enters, owned-terminate, abandoned-terminate, owned-release, abandoned-release,
  }

  -- When the thread that owns a mutex is terminated, the next tryLock() returns false although the
  -- calling thread owns the mutex then, and a lock() in its place fails its assertion. Every other
  -- thread is refused and blocks, until the caller unlocks what it was told that it has not locked.
  pub try_lock-terminated :
      (m : HandleState) (i j l : ℕ)
      → 0 < owned m i
      → ((h : ℕ) → i ≢ h → owned m h ≡ 0)
      → i ≢ j
      → j ≢ l
      → (m' : HandleState) × (try_lock k (terminate_thread m i) j ≡ (m', false))
        × (lock k (terminate_thread m i) j ≡ asserts m')
        × (owned m' j ≡ 1)
        × (try_lock k m' l ≡ (m', false))
        × (lock k m' l ≡ blocks)
        × ((h : ℕ) → owned (unlock k m' j) h ≡ 0)
  unfolding try_lock lock unlock
  try_lock-terminated m i j l owns alone ij jl =
      let none_left : (h : ℕ) → owned (terminate_thread m i) h ≡ 0 =
        λ h. ground (arith, owned-terminate m i h, alone h) in
      let (m', e, _, now) = wait-enters (terminate_thread m i) j (λ h _. none_left h) in
      let left : is_abandoned (terminate_thread m i) ≡ true =
        ground (arith, abandoned-terminate m i) in
      let own : owned m' j ≡ 1 = ground (arith, now j, none_left j) in
      let waits = wait-blocks m' l j (λ q. jl (sym q)) (omega arith) in
      (
        m',
        rw (e, left) refl,
        rw (e, left) refl,
        own,
        rw waits refl,
        rw waits refl,
        λ h. ground (arith, owned-release m' j h, now h, none_left h),
      )
