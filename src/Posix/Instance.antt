-- ===== src/Posix/Instance.antt =====
-- An instance of the interface: a mutex is its owner with a depth, a semaphore a number.
use ucxx.Base.{
  ℕ, zero, suc, ◌-◌, ◌<◌, ◌≡◌, ◌≢◌, refl, Option, none, some, ◌==◌, if◌then◌else◌, arith,
}
use ucxx.Posix.Interface.{Posix}

abbrev Owner : Type 0
Owner = Option (ℕ × ℕ)

-- `some (i, n)`: thread `i` holds n + 1 locks.
abbrev pub owner_held : Owner → ℕ → ℕ
owner_held none j = 0
owner_held (some (i, n)) j = if i == j then suc n else 0

abbrev pub owner_lock : Owner → ℕ → Option Owner
owner_lock none i = some (some (i, 0))
owner_lock (some (j, n)) i = if j == i then some (some (j, suc n)) else none

abbrev pub owner_unlock : Owner → ℕ → Owner
owner_unlock none i = none
owner_unlock (some (j, zero)) i = if j == i then none else some (j, zero)
owner_unlock (some (j, suc n)) i = if j == i then some (j, n) else some (j, suc n)

pub owner_held-lock :
    (m m' : Owner) (i j : ℕ)
    → owner_lock m i ≡ some m'
    → owner_held m' j ≡ (if i == j then suc (owner_held m j) else owner_held m j)
owner_held-lock none m' i j h = ground arith
owner_held-lock (some (k, n)) m' i j h = ground arith

pub owner_lock-blocks : (m : Owner) (i j : ℕ) → i ≢ j → 0 < owner_held m j → owner_lock m i ≡ none
owner_lock-blocks none i j ne h = absurd (omega arith)
owner_lock-blocks (some (k, n)) i j ne h = ground arith

pub owner_lock-enters :
    (m : Owner) (i : ℕ)
    → ((j : ℕ) → i ≢ j → owner_held m j ≡ 0)
    → (m' : Owner) × (owner_lock m i ≡ some m')
owner_lock-enters none i h = (some (i, 0), refl)
owner_lock-enters (some (k, n)) i h = (some (k, suc n), ground (arith, h k))

pub owner_held-unlock :
    (m : Owner) (i j : ℕ)
    → 0 < owner_held m i
    → owner_held (owner_unlock m i) j ≡ (if i == j then owner_held m j - 1 else owner_held m j)
owner_held-unlock none i j h = absurd (omega arith)
owner_held-unlock (some (k, zero)) i j h = ground arith
owner_held-unlock (some (k, suc n)) i j h = ground arith

abbrev pub take_permit : ℕ → Option ℕ
take_permit zero = none
take_permit (suc n) = some n

pub take_permit-none : (n : ℕ) → n ≡ 0 → take_permit n ≡ none
take_permit-none zero h = refl
take_permit-none (suc n) h = absurd (omega arith)

pub take_permit-some : (n : ℕ) → 0 < n → (m : ℕ) × (take_permit n ≡ some m) × (n ≡ suc m)
take_permit-some zero h = absurd (omega arith)
take_permit-some (suc n) h = (n, refl, refl)

abbrev pub simple_posix : Posix
simple_posix = record {
  MutexState = Owner;
  held = owner_held;
  mutex_init = none;
  mutex_lock = owner_lock;
  mutex_trylock = owner_lock;
  mutex_unlock = owner_unlock;
  held-init = λ _. refl;
  held-lock = owner_held-lock;
  lock-blocks = owner_lock-blocks;
  lock-enters = owner_lock-enters;
  trylock-lock = λ _ _. refl;
  held-unlock = owner_held-unlock;
  SemState = ℕ;
  sem_getvalue = λ n. n;
  sem_init = λ n. n;
  sem_wait = take_permit;
  sem_post = suc;
  getvalue-init = λ _. refl;
  wait-blocks = take_permit-none;
  wait-enters = take_permit-some;
  getvalue-post = λ _. refl;
}
