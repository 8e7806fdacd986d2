-- ===== src/Sema/Win32.antt =====
-- src/Sema.cpp under WIN32: the system's semaphore, and m_count beside it, which value() reads,
-- with the calls of `n` threads step by step. m_count is an int of 32 bits, kept as its word.
-- m_pMutex is a Mutex as in Mutex.antt: that of Windows is recursive as well.
pub mod Invariant
pub mod Drift
mod Tests
use ucxx.Base.{ℕ, zero, suc, ◌+◌, ◌-◌, ◌<◌, ◌%◌, ◌^◌, ◌≡◌, Bool, true, false, Option, none, some}
use ucxx.Base.Threads.{update, total}
use ucxx.Mutex
use ucxx.Posix.{Posix}

-- The calls of Windows: a semaphore object with its count.
pub record Kernel : Type 1 where
  pub SemState : Type 0
  pub permits : SemState → ℕ
  pub create_semaphore : ℕ → SemState
  -- WaitForSingleObject; `none`: the call does not come back with WAIT_OBJECT_0 now.
  pub wait_for_single_object : SemState → Option SemState
  -- ReleaseSemaphore, with the previous count that it writes; `none`: it fails and writes nothing.
  pub release_semaphore : SemState → ℕ → Option (SemState × ℕ)
  pub permits-create : (n : ℕ) → permits (create_semaphore n) ≡ n
  pub permits-wait :
      (s t : SemState) → wait_for_single_object s ≡ some t → permits s ≡ suc (permits t)
  pub permits-release :
      (s t : SemState) (increment previous : ℕ)
      → release_semaphore s increment ≡ some (t, previous)
      → (previous ≡ permits s) × (permits t ≡ permits s + increment)

-- Where a thread is: `waits` in WaitForSingleObject, `took_*` behind it with a permit. `stores sum
-- increment pending`: sum is cnt + increment, and pending is no variable of the code: how many
-- threads had a permit that m_count did not know of at the release. `undefined`: ReleaseSemaphore
-- has failed, and cnt is not initialised.
pub data Pc : Type 0 where
  outside waits took_locks took_counts took_unlocks : Pc
  returned : Bool → Pc
  releases_locks releases : ℕ → Pc
  stores : ℕ → ℕ → ℕ → Pc
  stores_unlocks value_locks value_reads value_unlocks undefined : Pc

-- `stale` is no member: the `pending` of the last store.
pub record Semaphore (k : Kernel) (p : Posix) : Type 0 where
  pub semaphore : k.SemState
  pub mutex : p.MutexState
  pub count : ℕ
  pub pcs : ℕ → Pc
  pub stale : ℕ

-- The start of a call, its next step, or the end of the time of a wait.
pub data Choice : Type 0 where
  wait : Choice
  notify : ℕ → Choice
  value go time_out : Choice

-- A thread that has a permit that m_count does not know of.
abbrev pub uncounted : Pc → ℕ
uncounted took_locks = 1
uncounted took_counts = 1
uncounted _ = 0

module _ (k : Kernel) (p : Posix) (n : ℕ) where
  abbrev pub pending : Semaphore k p → ℕ
  pending s = total uncounted n s.pcs

  -- Semaphore(int value)
  unfoldable pub create : ℕ → Semaphore k p
  create initial = record {
    semaphore = k.create_semaphore initial;
    mutex = Mutex.create p;
    count = initial % 2 ^ 32;
    pcs = λ _. outside;
    stale = 0;
  }

  abbrev pub moves : Semaphore k p → ℕ → Pc → Semaphore k p
  moves s i pc = record s { pcs = update s.pcs i pc }

  -- m_pMutex->lock() in front of `pc`, and unlock().
  unfoldable pub locking : ℕ → Semaphore k p → Pc → Option (Semaphore k p)
  locking i s pc = elim (Mutex.lock p s.mutex i) [
    | none ↦ none
    | some m ↦ some (record (moves s i pc) { mutex = m })
  ]

  unfoldable pub unlocking : ℕ → Semaphore k p → Pc → Semaphore k p
  unlocking i s pc = record (moves s i pc) { mutex = Mutex.unlock p s.mutex i }

  -- The next step of Semaphore::wait, value and notify, behind the call; `none`: it blocks.
  unfoldable pub wait_next : ℕ → Semaphore k p → Pc → Option (Semaphore k p)
  wait_next i s waits = elim (k.wait_for_single_object s.semaphore) [
    | none ↦ none
    | some t ↦ some (record (moves s i took_locks) { semaphore = t })
  ]
  wait_next i s took_locks = locking i s took_counts
  wait_next i s took_counts =
      some (record (moves s i took_unlocks) { count = (s.count + 2 ^ 32 - 1) % 2 ^ 32 })
  wait_next i s took_unlocks = some (unlocking i s (returned true))
  wait_next i s (returned result) = some (moves s i outside)
  wait_next i s _ = none

  unfoldable pub value_next : ℕ → Semaphore k p → Pc → Option (Semaphore k p)
  value_next i s value_locks = locking i s value_reads
  value_next i s value_reads = some (moves s i value_unlocks)
  value_next i s value_unlocks = some (unlocking i s outside)
  value_next i s _ = none

  unfoldable pub notify_next : ℕ → Semaphore k p → Pc → Option (Semaphore k p)
  notify_next i s (releases_locks increment) = locking i s (releases increment)
  notify_next i s (releases increment) = elim (k.release_semaphore s.semaphore increment) [
    | none ↦ some (moves s i undefined)
    | some (t, previous) ↦
        some (record (moves s i (stores (previous + increment) increment (pending s))) {
          semaphore = t;
        })
  ]
  notify_next i s (stores sum increment pending) =
      some (record (moves s i stores_unlocks) { count = sum % 2 ^ 32; stale = pending })
  notify_next i s stores_unlocks = some (unlocking i s outside)
  notify_next i s _ = none

  -- A call, the end of the time of a wait, or a step of the method that is called.
  unfoldable pub next : Choice → ℕ → Semaphore k p → Pc → Option (Semaphore k p)
  next wait i s outside = some (moves s i waits)
  next (notify increment) i s outside = some (moves s i (releases_locks increment))
  next value i s outside = some (moves s i value_locks)
  next time_out i s waits = some (moves s i (returned false))
  next go i s waits = wait_next i s waits
  next go i s took_locks = wait_next i s took_locks
  next go i s took_counts = wait_next i s took_counts
  next go i s took_unlocks = wait_next i s took_unlocks
  next go i s (returned result) = wait_next i s (returned result)
  next go i s value_locks = value_next i s value_locks
  next go i s value_reads = value_next i s value_reads
  next go i s value_unlocks = value_next i s value_unlocks
  next go i s (releases_locks increment) = notify_next i s (releases_locks increment)
  next go i s (releases increment) = notify_next i s (releases increment)
  next go i s (stores sum increment pending) = notify_next i s (stores sum increment pending)
  next go i s stores_unlocks = notify_next i s stores_unlocks
  next _ i s _ = none

  pub data Reach (s : Semaphore k p) : Semaphore k p → Type 0 where
    here : Reach s s
    later :
        {t u : Semaphore k p} (c : Choice) (i : ℕ)
        → i < n
        → Reach s t
        → next c i t (t.pcs i) ≡ some u
        → Reach s u
