-- ===== src/Thread/Win32/Clients.antt =====
-- src/Thread.cpp under WIN32: start, isRunning and join keep what a Thread keeps, and so does every
-- sequence of steps without terminate().
use ucxx.Base.{
  ℕ, suc, ◌+◌, ◌≤◌, ◌≡◌, ◌≢◌, ◌⊎◌, refl, subst, Bool, true, false, inl, inr, Bool-cases, arith,
}
use ucxx.Base.Threads.{update-holds}
use ucxx.Mutex.Win32
use ucxx.Mutex.Win32.{Kernel}
use ucxx.Mutex.Win32.Laws.{waits, enters, lock-Outcome}
use ucxx.Thread.{
  Client, outside, is_running_lock, is_running_read, reported, joining, ClientChoice, start,
  terminate, is_running, join, next, is_ended, self,
}
use ucxx.Thread.Invariant.{runner_holds, client_holds}
use ucxx.Thread.Win32.{
  Thread, go, die, create, moves, client_step, Step, runner_moves, client_moves, Reach, here, later,
}
use ucxx.Thread.Win32.Invariant.{Inv, Kept, runner-Kept, die-Kept}

module _ (k : Kernel) where
  open k use {
    HandleState, owned, is_abandoned, owned-release, abandoned-release, owned-create,
    abandoned-create,
  }

  -- Client `i` moves to `c`, with the mutex `m` behind the step.
  moves-Inv :
      (t : Thread k) (m : HandleState) (i : ℕ) (c : Client)
      → Inv k t
      → is_abandoned m ≡ false
      → owned m self ≡ runner_holds t.runner
      → owned m (suc i) ≡ client_holds c
      → runner_holds t.runner + client_holds c ≤ 1
      → ((j : ℕ) → i ≢ j → owned m (suc j) ≡ owned t.mutex (suc j))
      → Inv k (record (moves k t i c) { mutex = m })
  moves-Inv t m i c inv left runner_same own alone others = record {
    flag = inv.flag;
    holds = runner_same;
    client = λ j.
        update-holds (λ (x : Client). owned m (suc j) ≡ client_holds x) t.clients i c j
          (λ same. subst (λ (h : ℕ). owned m (suc h) ≡ client_holds c) same own)
          (λ ne. omega (arith, others j ne, inv.client j));
    exclusive = λ j.
        update-holds (λ (x : Client). runner_holds t.runner + client_holds x ≤ 1) t.clients i c j
          (λ _. alone) (λ _. inv.exclusive j);
    left = left;
    whole = inv.whole;
    spared = inv.spared;
    resumed = inv.resumed;
    rests = inv.rests;
    ran = inv.ran;
    live = inv.live;
  }

  plain-Inv :
      (t : Thread k) (i : ℕ) (c x : Client)
      → t.clients i ≡ x
      → client_holds c ≡ client_holds x
      → Inv k t
      → Inv k (moves k t i c)
  plain-Inv t i c x was same inv =
      let before : client_holds (t.clients i) ≡ client_holds x = cc was in
      moves-Inv t t.mutex i c inv inv.left inv.holds (omega (arith, inv.client i))
        (omega (arith, inv.exclusive i)) (λ j ne. refl)

  start-Kept : (i : ℕ) (t : Thread k) → Inv k t → Kept k (client_step k start i t outside)
  unfolding client_step
  start-Kept i t inv = record {
    flag = inv.flag;
    holds = inv.holds;
    client = inv.client;
    exclusive = inv.exclusive;
    left = inv.left;
    whole = inv.whole;
    spared = inv.spared;
    resumed = ground arith;
    rests = λ h. absurd (omega arith);
    ran = inv.ran;
    live = inv.live;
  }

  lock-Kept :
      (i : ℕ) (t : Thread k)
      → t.clients i ≡ is_running_lock
      → Inv k t
      → Kept k (client_step k next i t is_running_lock)
  unfolding client_step
  lock-Kept i t was inv = elim (lock-Outcome k t.mutex (suc i) inv.left) [
    | waits e ↦ rw (e, Kept, client_step) tt
    | enters m e left now alone ↦
        let nobody : owned t.mutex 0 ≡ 0 = alone 0 (λ h. absurd (omega arith)) in
        let before : client_holds (t.clients i) ≡ 0 = cc was in
        rw (e, Kept, client_step)
          (moves-Inv t m i is_running_read inv left (ground (arith, now 0, inv.holds))
            (ground (arith, now (suc i), inv.client i)) (omega (arith, inv.holds))
            (λ j ne. ground (arith, now (suc j))))
  ]

  unlock-Kept :
      (i : ℕ) (b : Bool) (t : Thread k)
      → t.clients i ≡ reported b
      → Inv k t
      → Kept k (client_step k next i t (reported b))
  unfolding client_step Win32.unlock
  unlock-Kept i b t was inv =
      let busy : client_holds (t.clients i) ≡ 1 = cc was in
      let own : owned t.mutex (suc i) ≡ 1 = omega (arith, inv.client i) in
      moves-Inv t (k.release_mutex t.mutex (suc i)) i outside inv
        (cc (abandoned-release t.mutex (suc i) (omega arith), inv.left))
        (ground (arith, owned-release t.mutex (suc i) 0, inv.holds))
        (ground (arith, owned-release t.mutex (suc i) (suc i))) (omega (arith, inv.exclusive i))
        (λ j ne. ground (arith, owned-release t.mutex (suc i) (suc j)))

  client-Kept :
      (c : ClientChoice) (i : ℕ) (t : Thread k) (x : Client)
      → c ≢ terminate
      → t.clients i ≡ x
      → Inv k t
      → Kept k (client_step k c i t x)
  unfolding client_step
  client-Kept terminate i t x spared was inv = absurd (spared refl)
  client-Kept start i t outside spared was inv = start-Kept i t inv
  client-Kept is_running i t outside spared was inv =
      plain-Inv t i is_running_lock outside was refl inv
  client-Kept join i t outside spared was inv = plain-Inv t i joining outside was refl inv
  client-Kept next i t is_running_lock spared was inv = lock-Kept i t was inv
  client-Kept next i t is_running_read spared was inv =
      plain-Inv t i (reported t.running) is_running_read was refl inv
  client-Kept next i t (reported b) spared was inv = unlock-Kept i b t was inv
  client-Kept next i t joining spared was inv = elim (Bool-cases (is_ended t.runner)) [
    | inl ended ↦ rw (ended, Kept, client_step) (plain-Inv t i outside joining was refl inv)
    | inr goes_on ↦ rw (goes_on, Kept, client_step) tt
  ]
  client-Kept _ i t _ spared was inv = tt

  pub create-Inv : (runnable : Bool) → Inv k (create k runnable)
  unfolding create Win32.create
  create-Inv runnable = record {
    flag = refl;
    holds = owned-create 0;
    client = λ i. owned-create (suc i);
    exclusive = λ i. omega arith;
    left = abandoned-create;
    whole = refl;
    spared = refl;
    resumed = refl;
    rests = λ _. refl;
    ran = ground arith;
    live = tt;
  }

  pub Step-Inv : {t u : Thread k} → Step k false t u → Inv k t → Inv k u
  Step-Inv {t} {u} (runner_moves go ok e) inv = subst (Kept k) e (runner-Kept k t t.runner inv)
  Step-Inv {t} {u} (runner_moves die ok e) inv = subst (Kept k) e (die-Kept k t t.runner inv)
  Step-Inv {t} {u} (client_moves i c ok allowed e) inv =
      subst (Kept k) e (client-Kept c i t (t.clients i) (no_kill c allowed) refl inv)
    where
      no_kill : (c : ClientChoice) → (c ≢ terminate) ⊎ (false ≡ true) → c ≢ terminate
      no_kill c (inl ne) = ne
      no_kill c (inr clash) = absurd (cc clash)

  pub Reach-Inv : {t u : Thread k} → Reach k false t u → Inv k t → Inv k u
  Reach-Inv here inv = inv
  Reach-Inv (later way step) inv = Step-Inv step (Reach-Inv way inv)
