-- ===== src/Thread/Win32/Laws.antt =====
-- src/Thread.cpp under WIN32: start, isRunning, join and terminate, however the threads' steps are
-- interleaved.
use ucxx.Base.{
  ℕ, zero, suc, ◌≤◌, ◌≡◌, ◌≢◌, refl, sym, subst, Bool, true, false, none, some, if◌then◌else◌, inl,
  inr, Bool-cases, arith,
}
use native.Mathlib.Decide.{dec_lt}
use ucxx.Mutex.Win32.{Kernel}
use ucxx.Mutex.Win32.Abandoned.{try_lock-terminated}
use ucxx.Thread.{
  Runner, waiting, body, finished, cancelled, set_lock, set_write, set_unlock, outside,
  is_running_lock, joining, terminate, next, is_ended, self,
}
use ucxx.Thread.Invariant.{runner_holds}
use ucxx.Thread.Win32.{Thread, go, die, create, thread_runner, client_step, Reach}
use ucxx.Thread.Win32.Invariant.{InvAt}
use ucxx.Thread.Win32.Clients.{create-Inv, Reach-Inv}

module _ (k : Kernel) where
  reached-Inv :
      (runnable : Bool) (t : Thread k) → Reach k false (create k runnable) t → InvAt k t t.runner
  reached-Inv runnable t way = Reach-Inv k way (create-Inv k runnable)

  -- What is the case when the thread has ended.
  abbrev pub HasRun : Thread k → Type 0
  HasRun t =
      (t.runner ≡ finished)
      × (1 ≤ t.starts)
      × (t.running ≡ false)
      × (t.runs ≡ (if t.runnable then 1 else 0))

  ended : (t : Thread k) (r : Runner) → r ≡ t.runner → InvAt k t r → is_ended r ≡ true → HasRun t
  unfolding is_ended
  ended t finished e inv h =
      let started : 1 ≤ t.starts = elim (dec_lt 0 t.starts) [
        | yes p ↦ p
        | no none_yet ↦ absurd (cc (inv.rests (omega arith)))
      ] in
      (sym e, started, inv.flag, ground (arith, inv.ran))
  ended t cancelled e inv h = absurd inv.live
  ended t waiting e inv h = absurd inv.live
  ended t body e inv h = absurd (cc h)
  ended t (set_lock b) e inv h = absurd (cc h)
  ended t (set_write b) e inv h = absurd (cc h)
  ended t (set_unlock b) e inv h = absurd (cc h)

  resting :
      (t : Thread k) (r : Runner)
      → InvAt k t r
      → r ≡ set_lock true
      → (t.running ≡ false) × (t.runs ≡ 0)
  resting t (set_lock true) inv e = (inv.flag, ground (arith, inv.ran))
  resting t _ inv e = absurd (cc e)

  -- As long as terminate() is not called: no assertion fails. While start() has not been called the
  -- thread makes no step, isRunning() reads false, the runnable has not run, and no join() returns.
  -- However often start() is called the runnable runs at most once, and only if there is one. When
  -- a join() returns, start() has been called, the thread has ended, the flag is false, and the
  -- runnable, if there is one, has run once.
  pub run-resumed :
      (runnable : Bool) (t : Thread k)
      → Reach k false (create k runnable) t
      → (t.aborted ≡ false)
        × (t.starts ≡ 0
            → (thread_runner k go t t.runner ≡ none)
              × (t.running ≡ false)
              × (t.runs ≡ 0)
              × ((i : ℕ) → client_step k next i t joining ≡ none))
        × (t.runs ≤ 1)
        × (t.runs ≡ 1 → t.runnable ≡ true)
        × ((i : ℕ) (u : Thread k) → client_step k next i t joining ≡ some u → HasRun t)
  unfolding client_step thread_runner is_ended
  run-resumed runnable t way =
      let inv = reached-Inv runnable t way in
      (
        inv.whole,
        λ none_yet.
            let at_start = inv.rests none_yet in
            let asleep : t.suspended ≡ true = ground (arith, inv.resumed) in
            let (flag, runs) = resting t t.runner inv at_start in
            (rw (asleep, thread_runner), flag, runs, λ i. rw (at_start, client_step, is_ended)),
        ground (arith, inv.ran),
        λ once. elim (Bool-cases t.runnable) [
          | inl given ↦ given
          | inr missing ↦ absurd (ground (arith, inv.ran))
        ],
        λ i u e. elim (Bool-cases (is_ended t.runner)) [
          | inl h ↦ ended t t.runner refl inv h
          | inr goes_on ↦
              let blocked : client_step k next i t joining ≡ none = rw (goes_on, client_step) in
              absurd (cc (blocked, e))
        ],
      )

  holder_goes_on : (r : Runner) → runner_holds r ≡ 1 → is_ended r ≡ false
  unfolding is_ended
  holder_goes_on (set_write b) h = refl
  holder_goes_on (set_unlock b) h = refl
  holder_goes_on _ h = absurd (omega arith)

  nobody_else :
      (t : Thread k)
      → InvAt k t t.runner
      → runner_holds t.runner ≡ 1
      → (h : ℕ) → 0 ≢ h
      → k.owned t.mutex h ≡ 0
  nobody_else t inv inside zero ne = absurd (ne refl)
  nobody_else t inv inside (suc i) ne = omega (arith, inv.client i, inv.exclusive i)

  -- The thread behind a terminate() that has taken effect.
  abbrev dead : Thread k → Thread k
  dead t = record t {
    terminating = true;
    runner = cancelled;
    mutex = k.terminate_thread t.mutex self;
  }

  died :
      (t u v : Thread k) (i : ℕ)
      → t.clients i ≡ outside
      → is_ended t.runner ≡ false
      → client_step k terminate i t (t.clients i) ≡ some u
      → thread_runner k die u u.runner ≡ some v
      → dead t ≡ v
  unfolding client_step thread_runner
  died t u v i out goes_on killed =
      let called : client_step k terminate i t (t.clients i)
          ≡ some (record t { terminating = true }) =
        rw (out, client_step) in
      let ends : thread_runner k die (record t { terminating = true }) t.runner ≡ some (dead t) =
        rw (goes_on, thread_runner) in
      let same : record t { terminating = true } ≡ u = cc (called, killed) in
      subst (λ (x : Thread k). thread_runner k die x x.runner ≡ some v → dead t ≡ v) same
        (λ dies. cc (ends, dies))

  -- When terminate() ends the thread between the lock and the unlock of setRunning, the next thread
  -- that comes to the mutex in isRunning() finds it abandoned, and its assertion fails.
  pub is_running-terminated :
      (runnable : Bool) (t u v : Thread k) (i j : ℕ)
      → Reach k false (create k runnable) t
      → runner_holds t.runner ≡ 1
      → t.clients i ≡ outside
      → t.clients j ≡ is_running_lock
      → client_step k terminate i t (t.clients i) ≡ some u
      → thread_runner k die u u.runner ≡ some v
      → (w : Thread k) × (client_step k next j v (v.clients j) ≡ some w) × (w.aborted ≡ true)
  unfolding client_step thread_runner
  is_running-terminated runnable t u v i j way inside out at_lock killed dies =
      let inv = reached-Inv runnable t way in
      let alone : (h : ℕ) → 0 ≢ h → k.owned t.mutex h ≡ 0 = nobody_else t inv inside in
      let (m, _, fails, _, _, _, _) =
        try_lock-terminated k t.mutex 0 (suc j) (suc (suc j)) (omega (arith, inv.holds)) alone
          (omega arith) (omega arith) in
      subst
        (λ (x : Thread k).
          (w : Thread k) × (client_step k next j x (x.clients j) ≡ some w) × (w.aborted ≡ true))
        (died t u v i out (holder_goes_on t.runner inside) killed dies)
        (record (dead t) { mutex = m; aborted = true }, rw (at_lock, client_step, fails), refl)
