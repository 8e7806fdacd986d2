-- ===== src/Sema/Win32/Drift.antt =====
-- src/Sema.cpp under WIN32: what m_count is.
use ucxx.Base.{
  ℕ, ◌+◌, ◌<◌, ◌%◌, ◌^◌, ◌≡◌, refl, sym, subst, true, false, inl, inr, Option-cases, arith,
}
use ucxx.Base.Threads.{update, update-holds, total, total-update, total-zero}
use ucxx.Mutex
use ucxx.Posix.{Posix}
use ucxx.Sema.Win32.{
  wait_next, value_next, notify_next, Kernel, Pc, outside, waits, took_locks, took_counts,
  took_unlocks, returned, releases_locks, releases, stores, stores_unlocks, value_locks,
  value_reads, value_unlocks, undefined, Semaphore, Choice, wait, notify, value, go, time_out,
  uncounted, pending, create, moves, next, Reach, here, later,
}
use ucxx.Sema.Win32.Invariant.{
  holds, unstored, Stored, Stored-nothing, all, step-Inv, still-Inv, locking-Kept, unlocking-Inv,
  Inv, Kept,
}

module _ (k : Kernel) (p : Posix) (n : ℕ) where
  open p use {held, held-init}
  open k use {permits, permits-create, permits-wait, permits-release}

  -- What a step of thread `i` to `x` does to the sums.
  sums :
      (s : Semaphore k p) (i : ℕ) (x y : Pc)
      → i < n
      → s.pcs i ≡ y
      → (uncounted y + total uncounted n (update s.pcs i x) ≡ uncounted x + total uncounted n s.pcs)
        × (unstored y + total unstored n (update s.pcs i x) ≡ unstored x + total unstored n s.pcs)
  sums s i x y lt was =
      rw (sym was) (total-update uncounted n s.pcs i x lt, total-update unstored n s.pcs i x lt)

  wait-Kept :
      (i : ℕ) (s : Semaphore k p)
      → i < n
      → s.pcs i ≡ waits
      → Inv k p n s
      → Kept k p n (next k p n go i s waits)
  unfolding next wait_next value_next notify_next
  wait-Kept i s lt was inv = elim (Option-cases (k.wait_for_single_object s.semaphore)) [
    | inl blocks ↦ rw (blocks, Kept, next, wait_next, notify_next) tt
    | inr (t, e) ↦
        let (more, same) = sums s i took_locks waits lt was in
        let before : holds (s.pcs i) ≡ 0 = cc was in
        rw (e, Kept, next, wait_next, notify_next)
          (step-Inv k p n s (record (moves k p n s i took_locks) { semaphore = t }) i took_locks inv
            refl (omega (arith, inv.holding i)) (λ j ne. refl)
            (λ j ne. omega (arith, inv.exclusive i j ne)) tt
            (inl (omega (arith, permits-wait s.semaphore t e)))
            (omega (arith, inv.drift, permits-wait s.semaphore t e)))
  ]

  count-Inv :
      (i : ℕ) (s : Semaphore k p)
      → i < n
      → s.pcs i ≡ took_counts
      → Inv k p n s
      → Kept k p n (next k p n go i s took_counts)
  unfolding next wait_next value_next notify_next
  count-Inv i s lt was inv =
      let (fewer, same) = sums s i took_unlocks took_counts lt was in
      let inside : holds (s.pcs i) ≡ 1 = cc was in
      step-Inv k p n s _ i took_unlocks inv refl (omega (arith, inv.holding i)) (λ j ne. refl)
        (λ j ne. omega (arith, inv.exclusive i j ne)) tt (inr inside) (omega (arith, inv.drift))

  release-Kept :
      (i : ℕ) (s : Semaphore k p) (increment : ℕ)
      → i < n
      → s.pcs i ≡ releases increment
      → Inv k p n s
      → Kept k p n (next k p n go i s (releases increment))
  unfolding next wait_next value_next notify_next
  release-Kept i s increment lt was inv =
      elim (Option-cases (k.release_semaphore s.semaphore increment)) [
        | inl fails ↦
            rw (fails, Kept, next, wait_next, notify_next)
              (still-Inv k p n s i undefined lt inv (cc was) (cc was) (λ _. tt) (cc was))
        | inr ((t, previous), e) ↦
            let x : Pc = stores (previous + increment) increment (pending k p n s) in
            let (same, more) = sums s i x (releases increment) lt was in
            let (was_permits, adds) = permits-release s.semaphore t increment previous e in
            let inside : holds (s.pcs i) ≡ 1 = cc was in
            rw (e, Kept, next, wait_next, notify_next)
              (step-Inv k p n s (record (moves k p n s i x) { semaphore = t }) i x inv refl
                (omega (arith, inv.holding i)) (λ j ne. refl)
                (λ j ne. omega (arith, inv.exclusive i j ne)) (omega arith) (inr inside)
                (omega (arith, inv.drift)))
      ]

  store-Inv :
      (i : ℕ) (s : Semaphore k p) (sum increment took : ℕ)
      → i < n
      → s.pcs i ≡ stores sum increment took
      → Inv k p n s
      → Kept k p n (next k p n go i s (stores sum increment took))
  unfolding next wait_next value_next notify_next
  store-Inv i s sum increment took lt was inv =
      let (same, fewer) = sums s i stores_unlocks (stores sum increment took) lt was in
      let inside : holds (s.pcs i) ≡ 1 = cc was in
      let exact : sum + took ≡ all k p n s =
        subst (λ y. Stored y (all k p n s)) was (inv.stored i) in
      let none_left : total unstored n (update s.pcs i stores_unlocks) ≡ 0 =
        total-zero unstored n (update s.pcs i stores_unlocks) (λ j.
          update-holds (λ y. unstored y ≡ 0) s.pcs i stores_unlocks j (λ _. refl)
            (λ ne. (Stored-nothing (s.pcs j) 0 (omega (arith, inv.exclusive i j ne))).0)) in
      step-Inv k p n s _ i stores_unlocks inv refl (omega (arith, inv.holding i)) (λ j ne. refl)
        (λ j ne. omega (arith, inv.exclusive i j ne)) tt (inr inside) (omega arith)

  next-Kept :
      (c : Choice) (i : ℕ) (s : Semaphore k p) (x : Pc)
      → i < n
      → s.pcs i ≡ x
      → Inv k p n s
      → Kept k p n (next k p n c i s x)
  unfolding next wait_next value_next notify_next
  next-Kept wait i s outside lt was inv =
      still-Inv k p n s i waits lt inv (cc was) (cc was) (λ _. tt) (cc was)
  next-Kept (notify increment) i s outside lt was inv =
      still-Inv k p n s i (releases_locks increment) lt inv (cc was) (cc was) (λ _. tt) (cc was)
  next-Kept value i s outside lt was inv =
      still-Inv k p n s i value_locks lt inv (cc was) (cc was) (λ _. tt) (cc was)
  next-Kept go i s waits lt was inv = wait-Kept i s lt was inv
  next-Kept time_out i s waits lt was inv =
      still-Inv k p n s i (returned false) lt inv (cc was) (cc was) (λ _. tt) (cc was)
  next-Kept go i s took_locks lt was inv =
      locking-Kept k p n s i took_counts lt inv (cc was) (cc was) (λ _. tt) (cc was) refl
  next-Kept go i s took_counts lt was inv = count-Inv i s lt was inv
  next-Kept go i s took_unlocks lt was inv =
      unlocking-Inv k p n s i (returned true) lt inv (cc was) (cc was) (λ _. tt) (cc was) refl
  next-Kept go i s (returned result) lt was inv =
      still-Inv k p n s i outside lt inv (cc was) (cc was) (λ _. tt) (cc was)
  next-Kept go i s (releases_locks increment) lt was inv =
      locking-Kept k p n s i (releases increment) lt inv (cc was) (cc was) (λ _. tt) (cc was) refl
  next-Kept go i s (releases increment) lt was inv = release-Kept i s increment lt was inv
  next-Kept go i s (stores sum increment pending) lt was inv =
      store-Inv i s sum increment pending lt was inv
  next-Kept go i s stores_unlocks lt was inv =
      unlocking-Inv k p n s i outside lt inv (cc was) (cc was) (λ _. tt) (cc was) refl
  next-Kept go i s value_locks lt was inv =
      locking-Kept k p n s i value_reads lt inv (cc was) (cc was) (λ _. tt) (cc was) refl
  next-Kept go i s value_reads lt was inv =
      still-Inv k p n s i value_unlocks lt inv (cc was) (cc was) (λ _. tt) (cc was)
  next-Kept go i s value_unlocks lt was inv =
      unlocking-Inv k p n s i outside lt inv (cc was) (cc was) (λ _. tt) (cc was) refl
  next-Kept _ i s _ lt was inv = tt

  reached-Inv :
      (initial : ℕ) {s : Semaphore k p} → Reach k p n (create k p n initial) s → Inv k p n s
  unfolding create Mutex.create
  reached-Inv initial here = record {
    holding = λ i. held-init i;
    exclusive = λ i j ne. omega arith;
    stored = λ i. tt;
    drift = omega (
      arith,
      permits-create initial,
      total-zero uncounted n (λ _. outside) (λ _. refl),
      total-zero unstored n (λ _. outside) (λ _. refl),
    );
  }
  reached-Inv initial (later {t} c i lt way e) =
      subst (Kept k p n) e (next-Kept c i t (t.pcs i) lt refl (reached-Inv initial way))

  -- Where no call is going on, what value() returns is the count of the system's semaphore less the
  -- number of the threads that, when notify last released, had a permit from WaitForSingleObject
  -- and had not decremented m_count yet: it is right if there were none. In general m_count, with
  -- that number and with what a notify has released and not stored, is the count of the semaphore
  -- with the permits that are not counted yet. All this modulo 2 ^ 32.
  pub count-stale :
      (initial : ℕ) (s : Semaphore k p)
      → Reach k p n (create k p n initial) s
      → ((s.count + s.stale + total unstored n s.pcs) % 2 ^ 32
          ≡ (permits s.semaphore + pending k p n s) % 2 ^ 32)
        × (((i : ℕ) → s.pcs i ≡ outside)
            → (s.count + s.stale) % 2 ^ 32 ≡ permits s.semaphore % 2 ^ 32)
  count-stale initial s way =
      let inv = reached-Inv initial way in
      (
        inv.drift,
        λ rests. omega (
          arith,
          inv.drift,
          total-zero uncounted n s.pcs (λ i. cc (rests i)),
          total-zero unstored n s.pcs (λ i. cc (rests i)),
        ),
      )
