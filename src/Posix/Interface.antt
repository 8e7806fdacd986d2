-- ===== src/Posix/Interface.antt =====
-- The operations of POSIX threads as src/Mutex.cpp and src/Sema.cpp use them.
use ucxx.Base.{ℕ, suc, ◌-◌, ◌<◌, ◌≡◌, ◌≢◌, Option, none, some, ◌==◌, if◌then◌else◌}

-- A call that blocks gives `none`.
pub record Posix : Type 1 where
  pub MutexState : Type 0
  -- How many locks of the mutex a thread holds.
  pub held : MutexState → ℕ → ℕ
  -- pthread_mutex_init with PTHREAD_MUTEX_RECURSIVE, and the calls of thread `i`.
  pub mutex_init : MutexState
  pub mutex_lock : MutexState → ℕ → Option MutexState
  pub mutex_trylock : MutexState → ℕ → Option MutexState
  pub mutex_unlock : MutexState → ℕ → MutexState
  pub held-init : (i : ℕ) → held mutex_init i ≡ 0
  pub held-lock :
      (m m' : MutexState) (i j : ℕ)
      → mutex_lock m i ≡ some m'
      → held m' j ≡ (if i == j then suc (held m j) else held m j)
  pub lock-blocks : (m : MutexState) (i j : ℕ) → i ≢ j → 0 < held m j → mutex_lock m i ≡ none
  pub lock-enters :
      (m : MutexState) (i : ℕ)
      → ((j : ℕ) → i ≢ j → held m j ≡ 0)
      → (m' : MutexState) × (mutex_lock m i ≡ some m')
  pub trylock-lock : (m : MutexState) (i : ℕ) → mutex_trylock m i ≡ mutex_lock m i
  pub held-unlock :
      (m : MutexState) (i j : ℕ)
      → 0 < held m i
      → held (mutex_unlock m i) j ≡ (if i == j then held m j - 1 else held m j)
  pub SemState : Type 0
  pub sem_getvalue : SemState → ℕ
  pub sem_init : ℕ → SemState
  pub sem_wait : SemState → Option SemState
  pub sem_post : SemState → SemState
  pub getvalue-init : (n : ℕ) → sem_getvalue (sem_init n) ≡ n
  pub wait-blocks : (s : SemState) → sem_getvalue s ≡ 0 → sem_wait s ≡ none
  pub wait-enters :
      (s : SemState)
      → 0 < sem_getvalue s
      → (s' : SemState) × (sem_wait s ≡ some s') × (sem_getvalue s ≡ suc (sem_getvalue s'))
  pub getvalue-post : (s : SemState) → sem_getvalue (sem_post s) ≡ suc (sem_getvalue s)
