-- ===== src/Queue/System.antt =====
-- src/Queue.h: `n` threads on one queue, their steps interleaved in any order.
use ucxx.Base.{ℕ, ◌<◌, ◌≡◌, ◌≢◌, ◌⊎◌, Bool, true, []}
use ucxx.Base.Threads.{update}
use ucxx.Mutex
use ucxx.Posix.{Posix}
use ucxx.Sema.Unix
use ucxx.Queue.Effects.{Shared, Pc, Choice, idle, interrupt, moved, next}

-- A number from `n` on names no thread: it stays idle.
pub record System (p : Posix) (T : Type 0) : Type 0 where
  pub mem : Shared p T
  pub pc : ℕ → Pc T

-- A queue as its constructor makes it.
abbrev pub created : (p : Posix) (T : Type 0) → System p T
created p T = record {
  mem = record { mutex = Mutex.create p; semaphore = Unix.create p 0; queue = [] };
  pc = λ _. idle;
}

module _ (p : Posix) {T : Type 0} (n : ℕ) (signals : Bool) where
  -- Waits are interrupted only where `signals` allows it.
  pub data Step (s : System p T) : System p T → Type 0 where
    step :
        (i : ℕ) (c : Choice T) {m : Shared p T} {q : Pc T}
        → i < n
        → (c ≢ interrupt) ⊎ (signals ≡ true)
        → next p c i s.mem (s.pc i) ≡ moved m q
        → Step s (record { mem = m; pc = update s.pc i q })

  pub data Reach (s : System p T) : System p T → Type 0 where
    here : Reach s s
    later : {t u : System p T} → Reach s t → Step t u → Reach s u
