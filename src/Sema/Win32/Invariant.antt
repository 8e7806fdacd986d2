-- ===== src/Sema/Win32/Invariant.antt =====
-- src/Sema.cpp under WIN32: what the mutex protects, and what m_count is short of.
use ucxx.Base.{
  ℕ, ◌+◌, ◌≤◌, ◌<◌, ◌%◌, ◌^◌, ◌≡◌, ◌≢◌, ◌⊎◌, refl, sym, subst, Option, none, some, inl, inr,
  Option-cases, arith,
}
use ucxx.Base.Threads.{exclusive-update, update, update-holds, total, total-update}
use ucxx.Mutex
use ucxx.Mutex.Laws.{lock-free}
use ucxx.Posix.{Posix}
use ucxx.Sema.Win32.{
  Kernel, Pc, took_counts, took_unlocks, releases, stores, stores_unlocks, value_reads,
  value_unlocks, undefined, Semaphore, uncounted, pending, moves, locking, unlocking,
}

abbrev pub holds : Pc → ℕ
holds took_counts = 1
holds took_unlocks = 1
holds (releases increment) = 1
holds (stores sum increment pending) = 1
holds stores_unlocks = 1
holds value_reads = 1
holds value_unlocks = 1
holds undefined = 1
holds _ = 0

-- What ReleaseSemaphore has added, and m_count does not know of yet.
abbrev pub unstored : Pc → ℕ
unstored (stores sum increment pending) = increment
unstored _ = 0

-- `permits`: all permits that are in the semaphore, or not counted yet.
abbrev pub Stored : Pc → ℕ → Type 0
Stored (stores sum increment pending) permits = sum + pending ≡ permits
Stored _ permits = Unit {0}

pub Stored-nothing : (x : Pc) (permits : ℕ) → holds x ≡ 0 → (unstored x ≡ 0) × Stored x permits
Stored-nothing (stores sum increment pending) permits h = absurd (omega arith)
Stored-nothing _ permits h = (refl, tt)

module _ (k : Kernel) (p : Posix) (n : ℕ) where
  open p use {held, held-lock, held-unlock, held-init}

  abbrev pub all : Semaphore k p → ℕ
  all s = k.permits s.semaphore + pending k p n s

  abbrev pub unstored_all : Semaphore k p → ℕ
  unstored_all s = total unstored n s.pcs

  pub record Inv (s : Semaphore k p) : Type 0 where
    pub holding : (i : ℕ) → held s.mutex i ≡ holds (s.pcs i)
    pub exclusive : (i j : ℕ) → i ≢ j → holds (s.pcs i) + holds (s.pcs j) ≤ 1
    pub stored : (i : ℕ) → Stored (s.pcs i) (all s)
    pub drift : (s.count + s.stale + unstored_all s) % 2 ^ 32 ≡ all s % 2 ^ 32

  abbrev pub Kept : Option (Semaphore k p) → Type 0
  Kept none = Unit {0}
  Kept (some u) = Inv u

  -- A step of thread `i` to `x`.
  pub step-Inv :
      (s u : Semaphore k p) (i : ℕ) (x : Pc)
      → Inv s
      → u.pcs ≡ update s.pcs i x
      → held u.mutex i ≡ holds x
      → ((j : ℕ) → i ≢ j → held u.mutex j ≡ held s.mutex j)
      → ((j : ℕ) → i ≢ j → holds x + holds (s.pcs j) ≤ 1)
      → Stored x (all u)
      → (all u ≡ all s) ⊎ (holds (s.pcs i) ≡ 1)
      → (u.count + u.stale + unstored_all u) % 2 ^ 32 ≡ all u % 2 ^ 32
      → Inv u
  step-Inv s u i x inv moved own others alone at_x same drift = record {
    holding = λ j. rw moved (
        update-holds (λ y. held u.mutex j ≡ holds y) s.pcs i x j (λ e. rw (sym e) own)
          (λ ne. omega (arith, others j ne, inv.holding j)));
    exclusive = λ j m ne. rw moved (exclusive-update holds s.pcs i x inv.exclusive alone j m ne);
    stored = λ j.
        subst (λ f. Stored (f j) (all u)) (sym moved)
          (update-holds (λ y. Stored y (all u)) s.pcs i x j (λ _. at_x)
            (λ ne. elim same [
              | inl unchanged ↦ rw unchanged (inv.stored j)
              | inr inside ↦
                  (Stored-nothing (s.pcs j) (all u) (omega (arith, inv.exclusive i j ne))).1
            ]));
    drift = drift;
  }

  -- A step that moves no permit.
  calm-Inv :
      (s : Semaphore k p) (m : p.MutexState) (i : ℕ) (x : Pc)
      → i < n
      → Inv s
      → uncounted x ≡ uncounted (s.pcs i)
      → unstored x ≡ unstored (s.pcs i)
      → ((permits : ℕ) → Stored x permits)
      → held m i ≡ holds x
      → ((j : ℕ) → i ≢ j → held m j ≡ held s.mutex j)
      → ((j : ℕ) → i ≢ j → holds x + holds (s.pcs j) ≤ 1)
      → Inv (record (moves k p n s i x) { mutex = m })
  calm-Inv s m i x lt inv same_uncounted same_unstored at_x own others alone =
      let uncounted_after = total-update uncounted n s.pcs i x lt in
      let unstored_after = total-update unstored n s.pcs i x lt in
      step-Inv s (record (moves k p n s i x) { mutex = m }) i x inv refl own others alone (at_x _)
        (inl (omega arith)) (omega (arith, inv.drift))

  -- ... and does not lock or unlock.
  pub still-Inv :
      (s : Semaphore k p) (i : ℕ) (x : Pc)
      → i < n
      → Inv s
      → uncounted x ≡ uncounted (s.pcs i)
      → unstored x ≡ unstored (s.pcs i)
      → ((permits : ℕ) → Stored x permits)
      → holds x ≡ holds (s.pcs i)
      → Inv (moves k p n s i x)
  still-Inv s i x lt inv same_uncounted same_unstored at_x same =
      calm-Inv s s.mutex i x lt inv same_uncounted same_unstored at_x (omega (arith, inv.holding i))
        (λ j ne. refl) (λ j ne. omega (arith, inv.exclusive i j ne))

  pub locking-Kept :
      (s : Semaphore k p) (i : ℕ) (x : Pc)
      → i < n
      → Inv s
      → uncounted x ≡ uncounted (s.pcs i)
      → unstored x ≡ unstored (s.pcs i)
      → ((permits : ℕ) → Stored x permits)
      → holds (s.pcs i) ≡ 0
      → holds x ≡ 1
      → Kept (locking k p n i s x)
  unfolding locking Mutex.lock
  locking-Kept s i x lt inv same_uncounted same_unstored at_x before after =
      elim (Option-cases (p.mutex_lock s.mutex i)) [
        | inl blocks ↦ rw (blocks, Kept, locking, Mutex.lock) tt
        | inr (m, e) ↦
            rw (e, Kept, locking, Mutex.lock)
              (calm-Inv s m i x lt inv same_uncounted same_unstored at_x
                (ground (arith, held-lock s.mutex m i i e, inv.holding i))
                (λ j ne. ground (arith, held-lock s.mutex m i j e))
                (λ j ne. omega (arith, lock-free p s.mutex m i j ne e, inv.holding j)))
      ]

  pub unlocking-Inv :
      (s : Semaphore k p) (i : ℕ) (x : Pc)
      → i < n
      → Inv s
      → uncounted x ≡ uncounted (s.pcs i)
      → unstored x ≡ unstored (s.pcs i)
      → ((permits : ℕ) → Stored x permits)
      → holds (s.pcs i) ≡ 1
      → holds x ≡ 0
      → Inv (unlocking k p n i s x)
  unfolding unlocking Mutex.unlock
  unlocking-Inv s i x lt inv same_uncounted same_unstored at_x before after =
      calm-Inv s (p.mutex_unlock s.mutex i) i x lt inv same_uncounted same_unstored at_x
        (ground (arith, held-unlock s.mutex i i, inv.holding i))
        (λ j ne. ground (arith, held-unlock s.mutex i j, inv.holding i))
        (λ j ne. omega (arith, inv.exclusive i j ne))
