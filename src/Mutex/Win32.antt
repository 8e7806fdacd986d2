-- ===== src/Mutex/Win32.antt =====
-- src/Mutex.cpp under WIN32: a mutex object of the system. A thread is a number.
pub mod Instance
pub mod Laws
pub mod Same
pub mod Abandoned
mod Tests
use ucxx.Base.{ℕ, suc, ◌-◌, ◌<◌, ◌≡◌, ◌≢◌, Bool, true, false, ◌||◌, ltb, ◌==◌, if◌then◌else◌}

-- What WaitForSingleObject returns: WAIT_OBJECT_0, WAIT_ABANDONED, WAIT_TIMEOUT.
pub data WaitResult : Type 0 where
  object_0 abandoned timeout : WaitResult

-- The calls of Windows, and what their documentation says.
pub record Kernel : Type 1 where
  pub HandleState : Type 0
  -- How many releases a thread owes, and whether a thread that owned the mutex has ended with no
  -- thread having waited for it since.
  pub owned : HandleState → ℕ → ℕ
  pub is_abandoned : HandleState → Bool
  -- CreateMutex(0, FALSE, 0)
  pub create_mutex : HandleState
  -- WaitForSingleObject(m_mutex, 0). With INFINITE a wait that would end in `timeout` goes on.
  pub wait_for_single_object : HandleState → ℕ → WaitResult × HandleState
  pub release_mutex : HandleState → ℕ → HandleState
  -- TerminateThread, of a thread that may own the mutex.
  pub terminate_thread : HandleState → ℕ → HandleState
  pub owned-create : (j : ℕ) → owned create_mutex j ≡ 0
  pub abandoned-create : is_abandoned create_mutex ≡ false
  pub wait-blocks :
      (m : HandleState) (i j : ℕ)
      → i ≢ j
      → 0 < owned m j
      → wait_for_single_object m i ≡ (timeout, m)
  pub wait-enters :
      (m : HandleState) (i : ℕ)
      → ((j : ℕ) → i ≢ j → owned m j ≡ 0)
      → (m' : HandleState) × (wait_for_single_object m i
          ≡ (if is_abandoned m then abandoned else object_0, m'))
        × (is_abandoned m' ≡ false)
        × ((j : ℕ) → owned m' j ≡ (if i == j then suc (owned m j) else owned m j))
  pub wait_unchanged :
      (m m' : HandleState) (i : ℕ) → wait_for_single_object m i ≡ (timeout, m') → m' ≡ m
  pub owned-release :
      (m : HandleState) (i j : ℕ)
      → 0 < owned m i
      → owned (release_mutex m i) j ≡ (if i == j then owned m j - 1 else owned m j)
  pub abandoned-release :
      (m : HandleState) (i : ℕ) → 0 < owned m i → is_abandoned (release_mutex m i) ≡ is_abandoned m
  pub owned-terminate :
      (m : HandleState) (i j : ℕ)
      → owned (terminate_thread m i) j ≡ (if i == j then 0 else owned m j)
  pub abandoned-terminate :
      (m : HandleState) (i : ℕ)
      → is_abandoned (terminate_thread m i) ≡ (is_abandoned m || ltb 0 (owned m i))

-- How a lock() ends: it blocks, its assertion fails, or it returns.
pub data LockResult (k : Kernel) : Type 0 where
  blocks : LockResult k
  asserts locked : k.HandleState → LockResult k

module _ (k : Kernel) where
  open k use {HandleState, create_mutex, wait_for_single_object, release_mutex}

  -- Mutex::Mutex()
  unfoldable pub create : HandleState
  create = create_mutex

  -- The assertion on dwWaitResult.
  abbrev pub lock_result : WaitResult × HandleState → LockResult k
  lock_result (object_0, m) = locked m
  lock_result (abandoned, m) = asserts m
  lock_result (timeout, m) = blocks

  unfoldable pub lock : HandleState → ℕ → LockResult k
  lock m i = lock_result (wait_for_single_object m i)

  unfoldable pub unlock : HandleState → ℕ → HandleState
  unlock m i = release_mutex m i

  abbrev pub try_result : WaitResult × HandleState → HandleState × Bool
  try_result (object_0, m) = (m, true)
  try_result (_, m) = (m, false)

  unfoldable pub try_lock : HandleState → ℕ → HandleState × Bool
  try_lock m i = try_result (wait_for_single_object m i)
