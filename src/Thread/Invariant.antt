-- ===== src/Thread/Invariant.antt =====
-- src/Thread.cpp: what a Thread and its users keep, as long as no wait is interrupted.
use ucxx.Base.{
  ℕ, suc, ◌+◌, ◌≤◌, ◌≡◌, ◌≢◌, refl, Bool, true, false, not, ◌&&◌, Option, none, some, if◌then◌else◌,
  inl, inr, Option-cases, Bool-cases, arith,
}
use native.Mathlib.Decide.{dec_lt}
use ucxx.Mutex
use ucxx.Mutex.Laws.{lock-free}
use ucxx.Posix.{Posix}
use ucxx.Thread.{
  at, Runner, waiting, body, finished, cancelled, set_lock, set_write, set_unlock, Client,
  is_running_read, reported, Thread, RunnerChoice, go, interrupt, cancel, self, set_running, run,
  thread_runner,
}

-- What the running flag is, where the runner is.
abbrev pub Agrees : Runner → Bool → Type 0
Agrees waiting b = b ≡ false
Agrees body b = b ≡ true
Agrees finished b = b ≡ false
Agrees cancelled b = Unit {0}
Agrees (set_lock c) b = b ≡ not c
Agrees (set_write c) b = b ≡ not c
Agrees (set_unlock c) b = b ≡ c

abbrev pub runner_holds : Runner → ℕ
runner_holds (set_write b) = 1
runner_holds (set_unlock b) = 1
runner_holds _ = 0

abbrev pub client_holds : Client → ℕ
client_holds is_running_read = 1
client_holds (reported b) = 1
client_holds _ = 0

-- The start semaphore has lost a permit to the runner, unless it still waits.
abbrev pub Permits : Runner → ℕ → ℕ → Type 0
Permits waiting permits starts = permits ≡ starts
Permits cancelled permits starts = permits ≤ starts
Permits _ permits starts = suc permits ≡ starts

-- Whether run() has returned.
abbrev pub has_run : Runner → Bool
has_run (set_lock b) = not b
has_run (set_write b) = not b
has_run (set_unlock b) = not b
has_run finished = true
has_run _ = false

module _ (p : Posix) where
  open p use {
    held, sem_getvalue, held-lock, held-unlock, lock-blocks, wait-blocks, wait-enters,
    getvalue-post,
  }

  -- `r` is the runner of `t`.
  pub record InvAt (t : Thread p) (r : Runner) : Type 0 where
    pub flag : Agrees r t.running
    pub holds : held t.mutex self ≡ runner_holds r
    pub client : (i : ℕ) → held t.mutex (suc i) ≡ client_holds (t.clients i)
    pub exclusive : (i : ℕ) → runner_holds r + client_holds (t.clients i) ≤ 1
    pub permits : Permits r (sem_getvalue t.start_semaphore) t.starts
    pub ran : t.runs ≡ (if t.runnable && has_run r then 1 else 0)
    pub ended : r ≡ cancelled → t.cancel_pending ≡ true

  abbrev pub Inv : Thread p → Type 0
  Inv t = InvAt t t.runner

  abbrev pub Kept : Option (Thread p) → Type 0
  Kept none = Unit {0}
  Kept (some u) = Inv u

  wait-Kept : (t : Thread p) → InvAt t waiting → Kept (thread_runner p go t waiting)
  unfolding thread_runner
  wait-Kept t inv = elim (dec_lt 0 (sem_getvalue t.start_semaphore)) [
    | no out ↦ rw (wait-blocks t.start_semaphore (omega arith), Kept, thread_runner) tt
    | yes permit ↦
        let (x, e, d) = wait-enters t.start_semaphore permit in
        rw (e, Kept, thread_runner)
          record {
            flag = inv.flag;
            holds = inv.holds;
            client = inv.client;
            exclusive = inv.exclusive;
            permits = omega (arith, inv.permits);
            ran = inv.ran;
            ended = λ h. absurd (cc h);
          }
  ]

  set_lock-Kept :
      (b : Bool) (t : Thread p) → InvAt t (set_lock b) → Kept (thread_runner p go t (set_lock b))
  unfolding thread_runner set_running Mutex.lock
  set_lock-Kept b t inv = elim (Option-cases (p.mutex_lock t.mutex self)) [
    | inl blocks ↦ rw (blocks, Kept, thread_runner, set_running, Mutex.lock) tt
    | inr (x, enters) ↦
        rw (enters, Kept, thread_runner, set_running, Mutex.lock)
          record {
            flag = inv.flag;
            holds = ground (arith, held-lock t.mutex x 0 0 enters, inv.holds);
            client = λ i. ground (arith, held-lock t.mutex x 0 (suc i) enters, inv.client i);
            exclusive = λ i. omega (
              arith,
              lock-free p t.mutex x 0 (suc i) (λ e. absurd (omega arith)) enters,
              inv.client i,
            );
            permits = inv.permits;
            ran = inv.ran;
            ended = λ h. absurd (cc h);
          }
  ]

  set_unlock-Kept :
      (b : Bool) (t : Thread p)
      → InvAt t (set_unlock b)
      → Kept (thread_runner p go t (set_unlock b))
  unfolding thread_runner set_running Mutex.unlock
  set_unlock-Kept true t inv = record {
    flag = inv.flag;
    holds = ground (arith, held-unlock t.mutex 0 0, inv.holds);
    client = λ i. ground (arith, held-unlock t.mutex 0 (suc i), inv.client i);
    exclusive = λ i. omega (arith, inv.exclusive i);
    permits = inv.permits;
    ran = inv.ran;
    ended = λ h. absurd (cc h);
  }
  set_unlock-Kept false t inv = record {
    flag = inv.flag;
    holds = ground (arith, held-unlock t.mutex 0 0, inv.holds);
    client = λ i. ground (arith, held-unlock t.mutex 0 (suc i), inv.client i);
    exclusive = λ i. omega (arith, inv.exclusive i);
    permits = inv.permits;
    ran = inv.ran;
    ended = λ h. absurd (cc h);
  }

  nothing : (b : Bool) (u : Thread p) → Kept (if b && false then some u else none)
  nothing true u = tt
  nothing false u = tt

  cancel-Kept : (t : Thread p) (r : Runner) → InvAt t r → Kept (thread_runner p cancel t r)
  unfolding thread_runner
  cancel-Kept t waiting inv = elim (Bool-cases t.cancel_pending) [
    | inr none_pending ↦ rw (none_pending, Kept, thread_runner) tt
    | inl pending ↦
        rw (pending, Kept, thread_runner)
          record {
            flag = tt;
            holds = inv.holds;
            client = inv.client;
            exclusive = inv.exclusive;
            permits = omega (arith, inv.permits);
            ran = inv.ran;
            ended = λ _. refl;
          }
  ]
  cancel-Kept t body inv = elim (Bool-cases t.cancel_pending) [
    | inr none_pending ↦ rw (none_pending, Kept, thread_runner) tt
    | inl pending ↦
        rw (pending, Kept, thread_runner)
          record {
            flag = tt;
            holds = inv.holds;
            client = inv.client;
            exclusive = inv.exclusive;
            permits = omega (arith, inv.permits);
            ran = inv.ran;
            ended = λ _. refl;
          }
  ]
  cancel-Kept t r inv = nothing t.cancel_pending (at p t cancelled)

  pub runner-Inv :
      (c : RunnerChoice) (t : Thread p) (r : Runner)
      → c ≢ interrupt
      → InvAt t r
      → Kept (thread_runner p c t r)
  unfolding thread_runner set_running run
  runner-Inv interrupt t r no_signal inv = absurd (no_signal refl)
  runner-Inv cancel t r no_signal inv = cancel-Kept t r inv
  runner-Inv go t waiting no_signal inv = wait-Kept t inv
  runner-Inv go t (set_lock b) no_signal inv = set_lock-Kept b t inv
  runner-Inv go t (set_write true) no_signal inv = record {
    flag = refl;
    holds = inv.holds;
    client = inv.client;
    exclusive = inv.exclusive;
    permits = inv.permits;
    ran = inv.ran;
    ended = λ h. absurd (cc h);
  }
  runner-Inv go t (set_write false) no_signal inv = record {
    flag = refl;
    holds = inv.holds;
    client = inv.client;
    exclusive = inv.exclusive;
    permits = inv.permits;
    ran = inv.ran;
    ended = λ h. absurd (cc h);
  }
  runner-Inv go t (set_unlock b) no_signal inv = set_unlock-Kept b t inv
  runner-Inv go t body no_signal inv = elim (Bool-cases t.runnable) [
    | inl given ↦
        rw (given, Kept, thread_runner, run)
          record {
            flag = inv.flag;
            holds = inv.holds;
            client = inv.client;
            exclusive = inv.exclusive;
            permits = inv.permits;
            ran = ground (arith, inv.ran);
            ended = λ h. absurd (cc h);
          }
    | inr missing ↦
        rw (missing, Kept, thread_runner, run)
          record {
            flag = inv.flag;
            holds = inv.holds;
            client = inv.client;
            exclusive = inv.exclusive;
            permits = inv.permits;
            ran = ground (arith, inv.ran);
            ended = λ h. absurd (cc h);
          }
  ]
  runner-Inv go t finished no_signal inv = tt
  runner-Inv go t cancelled no_signal inv = tt
