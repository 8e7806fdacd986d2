-- ===== src/Thread/Laws.antt =====
-- src/Thread.cpp: start, isRunning and join, however the threads' steps are interleaved.
use ucxx.Base.{
  ℕ, ◌≤◌, ◌≡◌, ◌≢◌, refl, Bool, true, false, not, none, some, inl, inr, Bool-cases, arith,
}
use ucxx.Posix.{Posix}
use ucxx.Thread.{
  moves, Runner, waiting, body, finished, cancelled, set_lock, set_write, set_unlock,
  is_running_read, reported, joining, Thread, go, next, create, thread_runner, is_ended,
  client_step, Reach,
}
use ucxx.Thread.Invariant.{runner_holds, client_holds, InvAt}
use ucxx.Thread.Clients.{create-Inv, Reach-Inv}

-- Whether run() is called, or has returned and setRunning(false) has not got the mutex.
unfoldable pub runs_now : Runner → Bool
runs_now body = true
runs_now (set_lock b) = not b
runs_now _ = false

module _ (p : Posix) where
  open p use {held, sem_getvalue, lock-enters, wait-blocks, wait-enters}

  reached-Inv :
      (runnable : Bool) (t : Thread p) → Reach p false (create p runnable) t → InvAt p t t.runner
  reached-Inv runnable t way = Reach-Inv p way (create-Inv p runnable)

  abbrev Rests : Thread p → Runner → Type 0
  Rests t r = (r ≡ waiting) × (t.running ≡ false) × (t.runs ≡ 0) × (thread_runner p go t r ≡ none)

  not_started :
      (t : Thread p) (r : Runner)
      → InvAt p t r
      → t.starts ≡ 0
      → t.cancel_pending ≡ false
      → Rests t r
  unfolding thread_runner
  not_started t waiting inv none_yet alive = (
    refl,
    inv.flag,
    ground (arith, inv.ran),
    rw (wait-blocks t.start_semaphore (omega (arith, inv.permits)), thread_runner),
  )
  not_started t cancelled inv none_yet alive = absurd (cc (inv.ended refl, alive))
  not_started t body inv none_yet alive = absurd (omega (arith, inv.permits))
  not_started t finished inv none_yet alive = absurd (omega (arith, inv.permits))
  not_started t (set_lock b) inv none_yet alive = absurd (omega (arith, inv.permits))
  not_started t (set_write b) inv none_yet alive = absurd (omega (arith, inv.permits))
  not_started t (set_unlock b) inv none_yet alive = absurd (omega (arith, inv.permits))

  -- While start() has not been called, and terminate() has not, the thread has not left the wait
  -- for its start, isRunning() reads false, the runnable has not run, neither the thread nor a
  -- join() of it makes a step. However often start() is called the runnable runs at most once, and
  -- only if there is one. All this as long as no wait is interrupted.
  pub run-started :
      (runnable : Bool) (t : Thread p)
      → Reach p false (create p runnable) t
      → (t.starts ≡ 0
          → t.cancel_pending ≡ false
          → (t.runner ≡ waiting)
            × (t.running ≡ false)
            × (t.runs ≡ 0)
            × (thread_runner p go t t.runner ≡ none)
            × ((i : ℕ) → client_step p next i t joining ≡ none))
        × (t.runs ≤ 1)
        × (t.runs ≡ 1 → t.runnable ≡ true)
  unfolding client_step is_ended
  run-started runnable t way =
      let inv = reached-Inv runnable t way in
      (
        λ none_yet alive.
            let (rests, flag, runs, blocks) = not_started t t.runner inv none_yet alive in
            (rests, flag, runs, blocks, λ i. rw (rests, client_step, is_ended)),
        ground (arith, inv.ran),
        λ once. elim (Bool-cases t.runnable) [
          | inl given ↦ given
          | inr missing ↦ absurd (ground (arith, inv.ran))
        ],
      )

  reads_now :
      (t : Thread p) (r : Runner)
      → InvAt p t r
      → runner_holds r ≡ 0
      → r ≢ cancelled
      → t.running ≡ runs_now r
  unfolding runs_now
  reads_now t waiting inv free alive = inv.flag
  reads_now t body inv free alive = inv.flag
  reads_now t finished inv free alive = inv.flag
  reads_now t cancelled inv free alive = absurd (alive refl)
  reads_now t (set_lock b) inv free alive = inv.flag
  reads_now t (set_write b) inv free alive = absurd (omega arith)
  reads_now t (set_unlock b) inv free alive = absurd (omega arith)

  -- What isRunning() returns is what is the case when it reads the flag: the runnable is being run,
  -- or setRunning(false) is to come. A thread that terminate() has ended may be reported as
  -- running.
  pub is_running-runs_now :
      (runnable : Bool) (t : Thread p) (i : ℕ)
      → Reach p false (create p runnable) t
      → t.clients i ≡ is_running_read
      → t.runner ≢ cancelled
      → client_step p next i t (t.clients i) ≡ some (moves p t i (reported (runs_now t.runner)))
  unfolding client_step
  is_running-runs_now runnable t i way reading alive =
      let inv = reached-Inv runnable t way in
      let one : client_holds (t.clients i) ≡ 1 = cc reading in
      let reads : t.running ≡ runs_now t.runner =
        reads_now t t.runner inv (omega (arith, inv.exclusive i)) alive in
      rw (reading, client_step, reads)
