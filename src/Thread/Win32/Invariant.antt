-- ===== src/Thread/Win32/Invariant.antt =====
-- src/Thread.cpp under WIN32: what a thread that nobody terminates and its users keep.
use ucxx.Base.{
  ℕ, suc, ◌+◌, ◌≤◌, ◌≡◌, refl, sym, subst, Bool, true, false, ◌&&◌, Option, none, some, ◌==◌,
  if◌then◌else◌, inl, inr, Bool-cases, arith,
}
use ucxx.Mutex.Win32
use ucxx.Mutex.Win32.{Kernel}
use ucxx.Mutex.Win32.Laws.{waits, enters, lock-Outcome}
use ucxx.Thread.{
  Runner, waiting, body, finished, cancelled, set_lock, set_write, set_unlock, after_set, self,
}
use ucxx.Thread.Invariant.{Agrees, runner_holds, client_holds, has_run}
use ucxx.Thread.Win32.{Thread, go, die, set_running, run, resumed_runner, thread_runner}

-- A thread has no semaphore to wait for, and is not terminated.
abbrev pub IsLive : Runner → Type 0
IsLive waiting = ⊥
IsLive cancelled = ⊥
IsLive _ = Unit {0}

module _ (k : Kernel) where
  open k use {
    HandleState, owned, is_abandoned, owned-release, abandoned-release, owned-create,
    abandoned-create,
  }

  -- `r` is the runner of `t`.
  pub record InvAt (t : Thread k) (r : Runner) : Type 0 where
    pub flag : Agrees r t.running
    pub holds : owned t.mutex self ≡ runner_holds r
    pub client : (i : ℕ) → owned t.mutex (suc i) ≡ client_holds (t.clients i)
    pub exclusive : (i : ℕ) → runner_holds r + client_holds (t.clients i) ≤ 1
    pub left : is_abandoned t.mutex ≡ false
    pub whole : t.aborted ≡ false
    pub spared : t.terminating ≡ false
    pub resumed : t.suspended ≡ (t.starts == 0)
    pub rests : t.starts ≡ 0 → r ≡ set_lock true
    pub ran : t.runs ≡ (if t.runnable && has_run r then 1 else 0)
    pub live : IsLive r

  abbrev pub Inv : Thread k → Type 0
  Inv t = InvAt t t.runner

  abbrev pub Kept : Option (Thread k) → Type 0
  Kept none = Unit {0}
  Kept (some u) = Inv u

  -- A thread that has been resumed comes to `r'`, with the mutex, the flag and the runs behind the
  -- step.
  moved-Inv :
      (t : Thread k) (r r' : Runner) (m : HandleState) (b : Bool) (n : ℕ)
      → InvAt t r
      → t.suspended ≡ false
      → Agrees r' b
      → IsLive r'
      → n ≡ (if t.runnable && has_run r' then 1 else 0)
      → is_abandoned m ≡ false
      → owned m self ≡ runner_holds r'
      → ((i : ℕ) → owned m (suc i) ≡ owned t.mutex (suc i))
      → ((i : ℕ) → runner_holds r' + client_holds (t.clients i) ≤ 1)
      → Inv (record t { mutex = m; running = b; runner = r'; runs = n })
  moved-Inv t r r' m b n inv awake agrees live ran left own others alone = record {
    flag = agrees;
    holds = own;
    client = λ i. omega (arith, others i, inv.client i);
    exclusive = alone;
    left = left;
    whole = inv.whole;
    spared = inv.spared;
    resumed = inv.resumed;
    rests = λ h. absurd (ground (arith, inv.resumed));
    ran = ran;
    live = live;
  }

  lock-Kept :
      (b : Bool) (t : Thread k)
      → InvAt t (set_lock b)
      → t.suspended ≡ false
      → Kept (set_running k b t (set_lock b))
  unfolding set_running
  lock-Kept b t inv awake = elim (lock-Outcome k t.mutex self inv.left) [
    | waits e ↦ rw (e, Kept, set_running) tt
    | enters m e left now alone ↦
        rw (e, Kept, set_running)
          (moved-Inv t (set_lock b) (set_write b) m t.running t.runs inv awake inv.flag tt inv.ran
            left (ground (arith, now 0, inv.holds)) (λ i. ground (arith, now (suc i)))
            (λ i. omega (arith, inv.client i, alone (suc i) (λ h. absurd (omega arith)))))
  ]

  -- Where setRunning has released the mutex.
  released :
      (t : Thread k) (b : Bool) (r' : Runner)
      → InvAt t (set_unlock b)
      → t.suspended ≡ false
      → Agrees r' t.running
      → IsLive r'
      → t.runs ≡ (if t.runnable && has_run r' then 1 else 0)
      → ((i : ℕ) → runner_holds r' + client_holds (t.clients i) ≤ 1)
      → runner_holds r' ≡ 0
      → Inv (record t { mutex = k.release_mutex t.mutex self; runner = r' })
  released t b r' inv awake agrees live ran alone out =
      moved-Inv t (set_unlock b) r' (k.release_mutex t.mutex self) t.running t.runs inv awake agrees
        live ran (cc (abandoned-release t.mutex 0 (omega (arith, inv.holds)), inv.left))
        (ground (arith, owned-release t.mutex 0 0, inv.holds, out))
        (λ i. ground (arith, owned-release t.mutex 0 (suc i), inv.holds)) alone

  unlock-Kept :
      (b : Bool) (t : Thread k)
      → InvAt t (set_unlock b)
      → t.suspended ≡ false
      → Kept (set_running k b t (set_unlock b))
  unfolding set_running Win32.unlock
  unlock-Kept b t inv awake = by_value b (inv.flag) inv.ran
    where
      by_value :
          (c : Bool)
          → t.running ≡ c
          → t.runs ≡ (if t.runnable && has_run (set_unlock c) then 1 else 0)
          → Inv (record t { mutex = k.release_mutex t.mutex self; runner = after_set c })
      by_value true flag ran =
          released t b body inv awake flag tt ran (λ i. omega (arith, inv.exclusive i)) refl
      by_value false flag ran =
          released t b finished inv awake flag tt ran (λ i. omega (arith, inv.exclusive i)) refl

  -- Where the mutex is not touched.
  plain-Inv :
      (t : Thread k) (r r' : Runner) (b : Bool) (n : ℕ)
      → InvAt t r
      → t.suspended ≡ false
      → Agrees r' b
      → IsLive r'
      → n ≡ (if t.runnable && has_run r' then 1 else 0)
      → runner_holds r' ≡ runner_holds r
      → Inv (record t { running = b; runner = r'; runs = n })
  plain-Inv t r r' b n inv awake agrees live ran same =
      moved-Inv t r r' t.mutex b n inv awake agrees live ran inv.left (omega (arith, inv.holds))
        (λ i. refl) (λ i. omega (arith, inv.exclusive i))

  resumed-Kept :
      (t : Thread k) (r : Runner) → InvAt t r → t.suspended ≡ false → Kept (resumed_runner k t r)
  unfolding resumed_runner set_running run
  resumed-Kept t (set_lock b) inv awake = lock-Kept b t inv awake
  resumed-Kept t (set_unlock b) inv awake = unlock-Kept b t inv awake
  resumed-Kept t (set_write true) inv awake =
      plain-Inv t (set_write true) (set_unlock true) true t.runs inv awake refl tt inv.ran refl
  resumed-Kept t (set_write false) inv awake =
      plain-Inv t (set_write false) (set_unlock false) false t.runs inv awake refl tt inv.ran refl
  resumed-Kept t body inv awake = elim (Bool-cases t.runnable) [
    | inl given ↦ subst by_runnable (sym given) (
        plain-Inv t body (set_lock false) t.running (suc t.runs) inv awake inv.flag tt
          (ground (arith, inv.ran)) refl)
    | inr missing ↦ subst by_runnable (sym missing) (
        plain-Inv t body (set_lock false) t.running t.runs inv awake inv.flag tt
          (ground (arith, inv.ran)) refl)
  ]
    where
      by_runnable : Bool → Type 0
      by_runnable c =
          Inv (record (if c then record t { runs = suc t.runs } else t) { runner = set_lock false })
  resumed-Kept t finished inv awake = tt
  resumed-Kept t waiting inv awake = tt
  resumed-Kept t cancelled inv awake = tt

  pub runner-Kept : (t : Thread k) (r : Runner) → InvAt t r → Kept (thread_runner k go t r)
  unfolding thread_runner
  runner-Kept t r inv = elim (Bool-cases t.suspended) [
    | inl asleep ↦ subst by_suspended (sym asleep) tt
    | inr awake ↦ subst by_suspended (sym awake) (resumed-Kept t r inv awake)
  ]
    where
      by_suspended : Bool → Type 0
      by_suspended c = Kept (if c then none else resumed_runner k t r)

  pub die-Kept : (t : Thread k) (r : Runner) → InvAt t r → Kept (thread_runner k die t r)
  unfolding thread_runner
  die-Kept t r inv = rw (inv.spared, Kept, thread_runner) tt
