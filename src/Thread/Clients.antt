-- ===== src/Thread/Clients.antt =====
-- src/Thread.cpp: start, isRunning, terminate and join keep what a Thread keeps, and so does every
-- sequence of steps.
use ucxx.Base.{
  ℕ, suc, ◌+◌, ◌≤◌, ◌≡◌, ◌≢◌, ◌⊎◌, refl, sym, subst, Bool, true, false, inl, inr, Option-cases,
  Bool-cases, arith,
}
use ucxx.Base.Threads.{update-holds}
use ucxx.Mutex
use ucxx.Mutex.Laws.{lock-free}
use ucxx.Posix.{Posix}
use ucxx.Sema.Unix
use ucxx.Thread.{
  moves, Runner, waiting, body, finished, cancelled, set_lock, set_write, set_unlock, Client,
  outside, is_running_lock, is_running_read, reported, joining, Thread, RunnerChoice, interrupt,
  ClientChoice, start, terminate, is_running, join, next, self, create, is_ended, client_step, Step,
  runner_moves, client_moves, Reach, here, later,
}
use ucxx.Thread.Invariant.{runner_holds, client_holds, Permits, Inv, Kept, runner-Inv}

abbrev Raised : Runner → ℕ → ℕ → Type 0
Raised r n m = Permits r (suc n) (suc m)

raised : (r : Runner) (n m : ℕ) → Permits r n m → Raised r n m
raised waiting n m h = omega arith
raised body n m h = omega arith
raised finished n m h = omega arith
raised cancelled n m h = omega arith
raised (set_lock b) n m h = omega arith
raised (set_write b) n m h = omega arith
raised (set_unlock b) n m h = omega arith

module _ (p : Posix) where
  open p use {
    held, sem_getvalue, held-lock, held-unlock, lock-blocks, getvalue-post, getvalue-init,
    held-init,
  }

  start-Kept : (i : ℕ) (t : Thread p) → Inv p t → Kept p (client_step p start i t outside)
  unfolding client_step Unix.notify Unix.post_loop
  start-Kept i t inv = record {
    flag = inv.flag;
    holds = inv.holds;
    client = inv.client;
    exclusive = inv.exclusive;
    permits =
        subst (λ n. Permits t.runner n (suc t.starts)) (sym (getvalue-post t.start_semaphore))
          (raised t.runner (sem_getvalue t.start_semaphore) t.starts inv.permits);
    ran = inv.ran;
    ended = inv.ended;
  }

  terminate-Kept : (i : ℕ) (t : Thread p) → Inv p t → Kept p (client_step p terminate i t outside)
  unfolding client_step
  terminate-Kept i t inv = record {
    flag = inv.flag;
    holds = inv.holds;
    client = inv.client;
    exclusive = inv.exclusive;
    permits = inv.permits;
    ran = inv.ran;
    ended = λ _. refl;
  }

  -- Client `i` moves to `c`, with the mutex `m` behind the step.
  moves-Inv :
      (t : Thread p) (m : p.MutexState) (i : ℕ) (c : Client)
      → Inv p t
      → held m self ≡ runner_holds t.runner
      → held m (suc i) ≡ client_holds c
      → runner_holds t.runner + client_holds c ≤ 1
      → ((j : ℕ) → i ≢ j → held m (suc j) ≡ held t.mutex (suc j))
      → Inv p (record (moves p t i c) { mutex = m })
  moves-Inv t m i c inv runner_same own alone others = record {
    flag = inv.flag;
    holds = runner_same;
    client = λ j.
        update-holds (λ x. held m (suc j) ≡ client_holds x) t.clients i c j (λ e. rw (sym e) own)
          (λ ne. ground (arith, others j ne, inv.client j));
    exclusive = λ j.
        update-holds (λ x. runner_holds t.runner + client_holds x ≤ 1) t.clients i c j (λ e. alone)
          (λ ne. inv.exclusive j);
    permits = inv.permits;
    ran = inv.ran;
    ended = inv.ended;
  }

  -- ... without touching the mutex.
  plain-Inv :
      (t : Thread p) (i : ℕ) (c old : Client)
      → t.clients i ≡ old
      → client_holds c ≡ client_holds old
      → Inv p t
      → Inv p (moves p t i c)
  plain-Inv t i c old was same inv =
      let kept : client_holds (t.clients i) ≡ client_holds c = cc (was, same) in
      moves-Inv t t.mutex i c inv inv.holds (omega (arith, inv.client i))
        (omega (arith, inv.exclusive i)) (λ j ne. refl)

  lock-Kept :
      (i : ℕ) (t : Thread p)
      → t.clients i ≡ is_running_lock
      → Inv p t
      → Kept p (client_step p next i t is_running_lock)
  unfolding client_step Mutex.lock
  lock-Kept i t was inv = elim (Option-cases (p.mutex_lock t.mutex (suc i))) [
    | inl blocks ↦ rw (blocks, Kept, client_step, Mutex.lock) tt
    | inr (m, enters) ↦
        let idle : client_holds (t.clients i) ≡ 0 = cc was in
        let free : held t.mutex 0 ≡ 0 =
          lock-free p t.mutex m (suc i) 0 (λ e. absurd (omega arith)) enters in
        rw (enters, Kept, client_step, Mutex.lock)
          (moves-Inv t m i is_running_read inv
            (ground (arith, held-lock t.mutex m (suc i) 0 enters, inv.holds))
            (ground (arith, held-lock t.mutex m (suc i) (suc i) enters, inv.client i))
            (omega (arith, inv.holds))
            (λ j ne. ground (arith, held-lock t.mutex m (suc i) (suc j) enters)))
  ]

  unlock-Kept :
      (i : ℕ) (b : Bool) (t : Thread p)
      → t.clients i ≡ reported b
      → Inv p t
      → Kept p (client_step p next i t (reported b))
  unfolding client_step Mutex.unlock
  unlock-Kept i b t was inv =
      let busy : client_holds (t.clients i) ≡ 1 = cc was in
      let own : held t.mutex (suc i) ≡ 1 = omega (arith, inv.client i) in
      moves-Inv t (p.mutex_unlock t.mutex (suc i)) i outside inv
        (ground (arith, held-unlock t.mutex (suc i) 0, inv.holds))
        (ground (arith, held-unlock t.mutex (suc i) (suc i))) (omega (arith, inv.exclusive i))
        (λ j ne. ground (arith, held-unlock t.mutex (suc i) (suc j)))

  client-Kept :
      (c : ClientChoice) (i : ℕ) (t : Thread p) (x : Client)
      → t.clients i ≡ x
      → Inv p t
      → Kept p (client_step p c i t x)
  unfolding client_step
  client-Kept start i t outside was inv = start-Kept i t inv
  client-Kept terminate i t outside was inv = terminate-Kept i t inv
  client-Kept is_running i t outside was inv = plain-Inv t i is_running_lock outside was refl inv
  client-Kept join i t outside was inv = plain-Inv t i joining outside was refl inv
  client-Kept next i t is_running_lock was inv = lock-Kept i t was inv
  client-Kept next i t is_running_read was inv =
      plain-Inv t i (reported t.running) is_running_read was refl inv
  client-Kept next i t (reported b) was inv = unlock-Kept i b t was inv
  client-Kept next i t joining was inv = elim (Bool-cases (is_ended t.runner)) [
    | inl ended ↦ rw (ended, Kept, client_step) (plain-Inv t i outside joining was refl inv)
    | inr goes_on ↦ rw (goes_on, Kept, client_step) tt
  ]
  client-Kept _ i t _ was inv = tt

  pub create-Inv : (runnable : Bool) → Inv p (create p runnable)
  unfolding create Mutex.create Unix.create
  create-Inv runnable = record {
    flag = refl;
    holds = held-init 0;
    client = λ i. held-init (suc i);
    exclusive = λ i. omega arith;
    permits = getvalue-init 0;
    ran = ground arith;
    ended = λ h. absurd (cc h);
  }

  pub Step-Inv : {t u : Thread p} → Step p false t u → Inv p t → Inv p u
  Step-Inv {t} {u} (runner_moves c allowed e) inv =
      subst (Kept p) e (runner-Inv p c t t.runner (no_signal c allowed) inv)
    where
      no_signal : (c : RunnerChoice) → (c ≢ interrupt) ⊎ (false ≡ true) → c ≢ interrupt
      no_signal c (inl ne) = ne
      no_signal c (inr clash) = absurd (cc clash)
  Step-Inv {t} {u} (client_moves i c e) inv =
      subst (Kept p) e (client-Kept c i t (t.clients i) refl inv)

  pub Reach-Inv : {t u : Thread p} → Reach p false t u → Inv p t → Inv p u
  Reach-Inv here inv = inv
  Reach-Inv (later way step) inv = Step-Inv step (Reach-Inv way inv)

  pub prepend : {t u v : Thread p} → Step p false t u → Reach p false u v → Reach p false t v
  prepend step here = later here step
  prepend step (later way last) = later (prepend step way) last
