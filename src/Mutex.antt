-- ===== src/Mutex.antt =====
-- src/Mutex.h, src/Mutex.cpp: Mutex and MutexLocker over POSIX threads. The WIN32 branches are
-- calls of one function each, and are not modelled.
pub mod Laws
pub mod Win32
mod Tests
use ucxx.Base.{ℕ, Bool, true, false, Option, none, some}
use ucxx.Posix.{Posix}

module _ (p : Posix) where
  open p use {MutexState, mutex_init, mutex_lock, mutex_trylock, mutex_unlock}

  -- Mutex::Mutex()
  unfoldable pub create : MutexState
  create = mutex_init

  -- `i` is the calling thread; `none`: the call blocks.
  unfoldable pub lock : MutexState → ℕ → Option MutexState
  lock m i = mutex_lock m i

  unfoldable pub unlock : MutexState → ℕ → MutexState
  unlock m i = mutex_unlock m i

  unfoldable pub try_lock : MutexState → ℕ → MutexState × Bool
  try_lock m i = elim (mutex_trylock m i) [ some m' ↦ (m', true) | none ↦ (m, false) ]

  -- MutexLocker(Mutex *pMutex) and its destructor: the pointer may be null, the outer `none`.
  unfoldable pub locker_construct : Option MutexState → ℕ → Option (Option MutexState)
  locker_construct none i = some none
  locker_construct (some m) i = elim (lock m i) [ none ↦ none | some m' ↦ some (some m') ]

  unfoldable pub locker_destroy : Option MutexState → ℕ → Option MutexState
  locker_destroy none i = none
  locker_destroy (some m) i = some (unlock m i)
