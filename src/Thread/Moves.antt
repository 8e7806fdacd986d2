-- ===== src/Thread/Moves.antt =====
-- src/Thread.cpp: a started thread that has not ended makes a step.
use ucxx.Base.{ℕ, zero, suc, ◌≤◌, ◌≡◌, ◌≢◌, refl, Bool, true, false, some, arith}
use ucxx.Mutex
use ucxx.Posix.{Posix}
use ucxx.Thread.{
  at, Runner, waiting, body, finished, cancelled, set_lock, set_write, set_unlock, Thread, go, self,
  set_running, run, thread_runner, is_ended,
}
use ucxx.Thread.Invariant.{client_holds, InvAt}

-- The steps that threadRunner has left.
abbrev pub steps_left : Runner → ℕ
steps_left waiting = 8
steps_left (set_lock true) = 7
steps_left (set_write true) = 6
steps_left (set_unlock true) = 5
steps_left body = 4
steps_left (set_lock false) = 3
steps_left (set_write false) = 2
steps_left (set_unlock false) = 1
steps_left finished = 0
steps_left cancelled = 0

module _ (p : Posix) where
  open p use {held, sem_getvalue, lock-enters, wait-enters}

  -- The runner makes its next step, and has one less.
  pub record Moved (t : Thread p) (r : Runner) : Type 0 where
    pub next_state : Thread p
    pub step : thread_runner p go t r ≡ some next_state
    pub fewer : suc (steps_left next_state.runner) ≡ steps_left r
    pub clients : next_state.clients ≡ t.clients
    pub starts : next_state.starts ≡ t.starts
    pub alive : next_state.runner ≢ cancelled

  abbrev pub Free : Thread p → Type 0
  Free t = (i : ℕ) → client_holds (t.clients i) ≡ 0

  enters :
      (t : Thread p) (r : Runner)
      → InvAt p t r
      → Free t
      → (m : p.MutexState) × (p.mutex_lock t.mutex self ≡ some m)
  enters t r inv free = lock-enters t.mutex self nobody
    where
      nobody : (j : ℕ) → self ≢ j → held t.mutex j ≡ 0
      nobody zero ne = absurd (ne refl)
      nobody (suc j) ne = omega (arith, inv.client j, free j)

  lock-Moved : (t : Thread p) (b : Bool) → InvAt p t (set_lock b) → Free t → Moved t (set_lock b)
  unfolding thread_runner set_running Mutex.lock
  lock-Moved t true inv free =
      let (m, e) = enters t (set_lock true) inv free in
      record {
        next_state = record t { mutex = m; runner = set_write true };
        step = rw (e, thread_runner, set_running, Mutex.lock);
        fewer = refl;
        clients = refl;
        starts = refl;
        alive = λ h. absurd (cc h);
      }
  lock-Moved t false inv free =
      let (m, e) = enters t (set_lock false) inv free in
      record {
        next_state = record t { mutex = m; runner = set_write false };
        step = rw (e, thread_runner, set_running, Mutex.lock);
        fewer = refl;
        clients = refl;
        starts = refl;
        alive = λ h. absurd (cc h);
      }

  pub runner-Moved :
      (t : Thread p) (r : Runner)
      → InvAt p t r
      → Free t
      → 1 ≤ t.starts
      → is_ended r ≡ false
      → Moved t r
  unfolding thread_runner set_running is_ended run
  runner-Moved t waiting inv free started goes_on =
      let (s, e, _) = wait-enters t.start_semaphore (omega (arith, inv.permits)) in
      record {
        next_state = record t { start_semaphore = s; runner = set_lock true };
        step = rw (e, thread_runner);
        fewer = refl;
        clients = refl;
        starts = refl;
        alive = λ h. absurd (cc h);
      }
  runner-Moved t (set_lock b) inv free started goes_on = lock-Moved t b inv free
  runner-Moved t (set_write true) inv free started goes_on = record {
    next_state = _;
    step = refl;
    fewer = refl;
    clients = refl;
    starts = refl;
    alive = λ h. absurd (cc h);
  }
  runner-Moved t (set_write false) inv free started goes_on = record {
    next_state = _;
    step = refl;
    fewer = refl;
    clients = refl;
    starts = refl;
    alive = λ h. absurd (cc h);
  }
  runner-Moved t (set_unlock true) inv free started goes_on = record {
    next_state = _;
    step = refl;
    fewer = refl;
    clients = refl;
    starts = refl;
    alive = λ h. absurd (cc h);
  }
  runner-Moved t (set_unlock false) inv free started goes_on = record {
    next_state = _;
    step = refl;
    fewer = refl;
    clients = refl;
    starts = refl;
    alive = λ h. absurd (cc h);
  }
  runner-Moved t body inv free started goes_on = record {
    next_state = at p (run p t) (set_lock false);
    step = refl;
    fewer = refl;
    clients = ground arith;
    starts = ground arith;
    alive = λ h. absurd (cc h);
  }
  runner-Moved t finished inv free started goes_on = absurd (cc goes_on)
  runner-Moved t cancelled inv free started goes_on = absurd (cc goes_on)
