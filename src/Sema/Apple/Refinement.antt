-- ===== src/Sema/Apple/Refinement.antt =====
-- src/Sema.cpp under __APPLE__ implements the counter of Sema/Counter.
use ucxx.Base.{Option, ℕ, none, some}
use ucxx.Posix.{Posix}
use ucxx.Sema.Apple.{Semaphore}
use ucxx.Sema.Counter.{Runs}

module _ (p : Posix) (n : ℕ) where
  abbrev Counts : Semaphore p → Type 0
  Counts s = Runs n s.given s.taken s.count

  -- A step of the implementation is one of the counter, or none.
  abbrev Simulated : Semaphore p → Option (Semaphore p) → Type 0
  Simulated s none = Unit {0}
  Simulated s (some u) = Counts s → Counts u
