-- ===== src/Sema/Apple/Balance.antt =====
-- src/Sema.cpp under __APPLE__: m_count counts, however the calls are interleaved.
use ucxx.Base.{
  ℕ, zero, suc, ◌+◌, ◌<◌, ◌≡◌, ◌≢◌, refl, subst, Bool, true, false, none, some, if◌then◌else◌, inl,
  inr, Option-cases, arith,
}
use ucxx.Base.Threads.{update-holds}
use ucxx.Posix.{Posix}
use ucxx.Sema.Apple.{
  first, again, reads, Pc, outside, locks, tests, loads, stores, unlocks, sleep_locks, sleep_enters,
  sleeping, woken, sleep_unlocks, returned, Semaphore, Choice, wait, notify, read_value, go, round,
  create, moves, next, Step, steps, wakes, wakes_nobody, times_out, wakes_spuriously, Reach, here,
  later,
}
use ucxx.Sema.Apple.Invariant.{Sees, holds, Inv, Kept, plain-Inv, inside-Inv}
use ucxx.Sema.Apple.Sections.{lock-Kept, test-Kept, store-Inv, unlock-Kept}

module _ (p : Posix) (initial : ℕ) where
  open p use {held, held-init}

  -- m_waitMutex is locked in front of `y`.
  wait_lock-Kept :
      (i : ℕ) (s : Semaphore p) (y : Pc)
      → holds (s.pcs i) ≡ 0
      → holds y ≡ 0
      → Inv p initial s
      → Kept p initial (elim (p.mutex_lock s.wait_mutex i) [
        | none ↦ none
        | some m ↦ some (record (moves p s i y) { wait_mutex = m })
      ])
  wait_lock-Kept i s y before after inv = elim (Option-cases (p.mutex_lock s.wait_mutex i)) [
    | inl blocks ↦ rw (blocks, Kept) tt
    | inr (m, e) ↦ rw (e, Kept) (plain-Inv p initial s m i y inv before after)
  ]

  holds_round : (n : ℕ) → holds (round n) ≡ 0
  holds_round zero = refl
  holds_round (suc n) = refl

  holds_behind_sleep : (ok : Bool) → holds (if ok then locks again else returned false) ≡ 0
  holds_behind_sleep true = refl
  holds_behind_sleep false = refl

  next-Kept :
      (c : Choice) (i : ℕ) (s : Semaphore p) (x : Pc)
      → s.pcs i ≡ x
      → Inv p initial s
      → Kept p initial (next p c i s x)
  unfolding next
  next-Kept (wait timed) i s outside was inv =
      plain-Inv p initial s s.wait_mutex i (locks (first timed)) inv (cc was) refl
  next-Kept (notify increment) i s outside was inv =
      plain-Inv p initial s s.wait_mutex i (round increment) inv (cc was) (holds_round increment)
  next-Kept read_value i s outside was inv =
      plain-Inv p initial s s.wait_mutex i (locks reads) inv (cc was) refl
  next-Kept go i s (locks a) was inv = lock-Kept p initial i s a was inv
  next-Kept go i s (tests a) was inv = test-Kept p initial i s a was inv
  next-Kept go i s (loads a) was inv =
      inside-Inv p initial s i (stores a s.count) inv (cc was) refl
        (refl, subst (λ y. Sees y s.count) was (inv.seen i))
  next-Kept go i s (stores a c) was inv =
      store-Inv p initial i s a c was inv (subst (λ y. Sees y s.count) was (inv.seen i))
  next-Kept go i s (unlocks a took) was inv = unlock-Kept p initial i s a took was inv
  next-Kept go i s (sleep_locks timed) was inv =
      wait_lock-Kept i s (sleep_enters timed) (cc was) refl inv
  next-Kept go i s (sleep_enters timed) was inv =
      plain-Inv p initial s _ i (sleeping timed) inv (cc was) refl
  next-Kept go i s (woken ok) was inv = wait_lock-Kept i s (sleep_unlocks ok) (cc was) refl inv
  next-Kept go i s (sleep_unlocks ok) was inv =
      plain-Inv p initial s _ i (if ok then locks again else returned false) inv (cc was)
        (holds_behind_sleep ok)
  next-Kept go i s (returned result) was inv =
      plain-Inv p initial s s.wait_mutex i outside inv (cc was) refl
  next-Kept _ i s _ was inv = tt

  create-Inv : Inv p initial (create p initial)
  unfolding create
  create-Inv = record {
    holding = λ i. held-init i;
    exclusive = λ i j ne. omega arith;
    seen = λ i. tt;
    balance = refl;
  }

  Step-Inv :
      {spurious calls : Bool} {s u : Semaphore p}
      → Step p spurious calls s u
      → Inv p initial s
      → Inv p initial u
  Step-Inv {spurious} {calls} {s} {u} (steps c i allowed e) inv =
      subst (Kept p initial) e (next-Kept c i s (s.pcs i) refl inv)
  Step-Inv {spurious} {calls} {s} {u} (wakes i j n timed at_signal asleep) inv =
      let awake = plain-Inv p initial s s.wait_mutex j (woken true) inv (cc asleep) refl in
      plain-Inv p initial (moves p s j (woken true)) s.wait_mutex i (round n) awake
        (update-holds (λ y. holds y ≡ 0) s.pcs j (woken true) i (λ _. refl) (λ _. cc at_signal))
        (holds_round n)
  Step-Inv {spurious} {calls} {s} {u} (wakes_nobody i n at_signal nobody) inv =
      plain-Inv p initial s s.wait_mutex i (round n) inv (cc at_signal) (holds_round n)
  Step-Inv {spurious} {calls} {s} {u} (times_out i asleep) inv =
      plain-Inv p initial s s.wait_mutex i (woken false) inv (cc asleep) refl
  Step-Inv {spurious} {calls} {s} {u} (wakes_spuriously i timed allowed asleep) inv =
      plain-Inv p initial s s.wait_mutex i (woken true) inv (cc asleep) refl

  pub Reach-Inv :
      {spurious calls : Bool} {s : Semaphore p}
      → Reach p spurious calls (create p initial) s
      → Inv p initial s
  Reach-Inv here = create-Inv
  Reach-Inv (later way step) = Step-Inv step (Reach-Inv way)

  -- However the calls of the threads are interleaved, and even if the condition wakes threads
  -- without a signal: m_count is the initial value, with the increments that notify has made,
  -- without the permits that wait has taken. No increment and no permit is lost or counted twice.
  -- No two threads are between the lock and the unlock of its mutex, and what value() reads is
  -- m_count.
  pub count-balance :
      (spurious calls : Bool) (s : Semaphore p)
      → Reach p spurious calls (create p initial) s
      → (s.count + s.taken ≡ initial + s.given)
        × ((i j : ℕ) → i ≢ j → 0 < holds (s.pcs i) → holds (s.pcs j) ≡ 0)
        × ((i c : ℕ) → s.pcs i ≡ stores reads c → c ≡ s.count)
  count-balance spurious calls s way =
      let inv = Reach-Inv way in
      (
        inv.balance,
        λ i j ne inside. omega (arith, inv.exclusive i j ne),
        λ i c reading. (subst (λ y. Sees y s.count) reading (inv.seen i)).0,
      )
