-- ===== src/Thread/Progress.antt =====
-- src/Thread.cpp: a started thread comes to its end.
use ucxx.Base.{ℕ, zero, suc, ◌≡◌, false, none, some}
use ucxx.Posix.{Posix}
use ucxx.Thread.{finished, Thread, go, thread_runner, Reach}

module _ (p : Posix) where
  -- threadRunner alone, until it blocks or ends.
  unfoldable pub run_alone : ℕ → Thread p → Thread p
  run_alone zero t = t
  run_alone (suc n) t = elim (thread_runner p go t t.runner) [ none ↦ t | some u ↦ run_alone n u ]

  pub record Ended (t u : Thread p) : Type 0 where
    pub way : Reach p false t u
    pub ended : u.runner ≡ finished
    pub starts : u.starts ≡ t.starts
