-- ===== src/Sema/Apple/Sleep.antt =====
-- src/Sema.cpp under __APPLE__: a wait that sleeps.
use ucxx.Base.{ℕ, ◌≡◌, Bool, true, false, Option, none, some}
use ucxx.Base.Threads.{update}
use ucxx.Posix.{Posix}
use ucxx.Sema.Apple.{
  Access, adds, Pc, locks, tests, loads, stores, unlocks, sleeping, signals, Semaphore,
}

abbrev quiet_access : Access → Bool
quiet_access (adds n) = false
quiet_access _ = true

-- The thread is not in notify.
abbrev pub is_quiet : Pc → Bool
is_quiet (locks a) = quiet_access a
is_quiet (tests a) = quiet_access a
is_quiet (loads a) = quiet_access a
is_quiet (stores a c) = quiet_access a
is_quiet (unlocks a took) = quiet_access a
is_quiet (signals n) = false
is_quiet _ = true

module _ (p : Posix) where
  -- Thread `i` has moved, and not into notify.
  abbrev Moved : Semaphore p → ℕ → Option (Semaphore p) → Type 0
  Moved s i none = Unit {0}
  Moved s i (some u) = (y : Pc) × (u.pcs ≡ update s.pcs i y) × (is_quiet y ≡ true)

  -- Thread `i` sleeps without a timeout, and no thread is in notify.
  pub record Unnoticed (i : ℕ) (s : Semaphore p) : Type 0 where
    pub asleep : s.pcs i ≡ sleeping false
    pub calm : (j : ℕ) → is_quiet (s.pcs j) ≡ true
