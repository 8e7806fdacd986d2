-- ===== src/Sema/Apple/Permits.antt =====
-- src/Sema.cpp under __APPLE__: what wait returns, and the permits that it takes.
use ucxx.Base.{ℕ, ◌+◌, ◌≡◌, Bool, true, Option, none, some, ◌==◌, if◌then◌else◌}
use ucxx.Posix.{Posix}
use ucxx.Sema.Apple.{
  first, again, Pc, stores, unlocks, returned, Semaphore, Choice, go, Step, steps, Reach, here,
  later,
}

-- A step that writes the decremented m_count.
abbrev pub takes : Choice → Pc → ℕ
takes go (stores (first timed) c) = 1
takes go (stores again c) = 1
takes _ _ = 0

-- A wait that returns true.
abbrev pub grants : Choice → Pc → ℕ
grants go (returned true) = 1
grants _ _ = 0

-- The thread has taken a permit, and its wait has not returned.
abbrev pub owes : Pc → ℕ
owes (unlocks (first timed) true) = 1
owes (unlocks again true) = 1
owes (returned true) = 1
owes _ = 0

module _ (p : Posix) where
  -- Whether a step is one of thread `i` that `f` counts.
  unfoldable pub counted :
      {spurious calls : Bool} {s u : Semaphore p}
      → (Choice → Pc → ℕ)
      → ℕ
      → Step p spurious calls s u
      → ℕ
  counted {s} f i (steps c j allowed e) = if j == i then f c (s.pcs i) else 0
  counted f i _ = 0

  -- How many such steps there have been.
  unfoldable pub times :
      {spurious calls : Bool} {s u : Semaphore p}
      → (Choice → Pc → ℕ)
      → ℕ
      → Reach p spurious calls s u
      → ℕ
  times f i here = 0
  times f i (later way step) = counted f i step + times f i way

  -- Thread `j` has made the step `c` from `x`.
  abbrev Paid : Choice → ℕ → Semaphore p → Pc → Option (Semaphore p) → Type 0
  Paid c j s x none = Unit {0}
  Paid c j s x (some u) =
      (i : ℕ)
      → owes (u.pcs i) + (if j == i then grants c (s.pcs i) else 0)
        ≡ owes (s.pcs i) + (if j == i then takes c (s.pcs i) else 0)
