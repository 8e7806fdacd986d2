-- ===== src/Queue/Invariant.antt =====
-- src/Queue.h: what the threads keep, as long as no wait is interrupted.
use ucxx.Base.{ℕ, ◌+◌, ◌<◌, ◌≡◌, ◌≢◌, refl, subst, false, List, length, arith, inl, inr}
use native.Mathlib.Decide.{dec_lt, ℕ_discrete}
use ucxx.Base.Threads.{update, update-holds, total, total-update, total-zero, weight-le-total}
use ucxx.Mutex
use ucxx.Posix.{Posix}
use ucxx.Sema.Unix
use ucxx.Queue.Effects.{Shared, Pc, idle, dequeue_pop, clear_wait, clear_assign}
use ucxx.Queue.System.{System, created, Step, step, Reach, here, later}
use ucxx.Queue.Steps.{inside, claims, IsFresh, Moved, Kept}
use ucxx.Queue.Kept.{next-Kept}

outside-IsFresh : {T : Type 0} (q : List T) (a : Pc T) → inside a ≡ 0 → IsFresh q a
outside-IsFresh q (dequeue_pop e) out = absurd (omega arith)
outside-IsFresh q (clear_wait k) out = absurd (omega arith)
outside-IsFresh q (clear_assign k) out = absurd (omega arith)
outside-IsFresh q a out = tt

module _ (p : Posix) {T : Type 0} where
  open p use {held, sem_getvalue}

  pub record Inv (n : ℕ) (s : System p T) : Type 0 where
    pub holders : (i : ℕ) → held s.mem.mutex i ≡ inside (s.pc i)
    pub exclusive : (i j : ℕ) → 0 < inside (s.pc i) → 0 < inside (s.pc j) → i ≡ j
    pub permits : sem_getvalue s.mem.semaphore + total claims n s.pc ≡ length s.mem.queue
    pub fresh : (i : ℕ) → IsFresh s.mem.queue (s.pc i)

  module _ (n i : ℕ) (s : System p T) (inv : Inv n s) (below : i < n) {m : Shared p T} {q : Pc T}
      (kept : Moved p i s.mem (s.pc i) m q) where
    alone : (j : ℕ) → i ≢ j → 0 < inside q → inside (s.pc j) ≡ 0
    alone j other in_q = elim (dec_lt 0 (inside (s.pc i))) [
      | yes in_i ↦ elim (dec_lt 0 (inside (s.pc j))) [
        | yes in_j ↦ absurd (other (inv.exclusive i j in_i in_j))
        | no out ↦ omega arith
      ]
      | no out ↦ omega (arith, kept.enters j other (omega arith) in_q, inv.holders j)
    ]

    still_fresh : (j : ℕ) → i ≢ j → IsFresh m.queue (s.pc j)
    still_fresh j other = elim (dec_lt 0 (inside (s.pc j))) [
      | no out ↦ outside-IsFresh m.queue (s.pc j) (omega arith)
      | yes in_j ↦ elim (dec_lt 0 (inside (s.pc i))) [
        | yes in_i ↦ absurd (other (inv.exclusive i j in_i in_j))
        | no out ↦ rw (kept.keeps (omega arith)) (inv.fresh j)
      ]
    ]

    was_inside : (j : ℕ) → i ≢ j → 0 < inside (update s.pc i q j) → 0 < inside (s.pc j)
    was_inside j other in_j = ground arith

    now_inside : (j : ℕ) → i ≡ j → 0 < inside (update s.pc i q j) → 0 < inside q
    now_inside j same in_j = ground arith

    one_inside : (j k : ℕ) → 0 < inside (update s.pc i q j) → 0 < inside (update s.pc i q k) → j ≡ k
    one_inside j k in_j in_k = elim (ℕ_discrete i j) [
      | yes at_j ↦ elim (ℕ_discrete i k) [
        | yes at_k ↦ omega arith
        | no off_k ↦ omega (arith, alone k off_k (now_inside j at_j in_j), was_inside k off_k in_k)
      ]
      | no off_j ↦ elim (ℕ_discrete i k) [
        | yes at_k ↦ omega (arith, alone j off_j (now_inside k at_k in_k), was_inside j off_j in_j)
        | no off_k ↦ inv.exclusive j k (was_inside j off_j in_j) (was_inside k off_k in_k)
      ]
    ]

    moved-Inv : Inv n (record { mem = m; pc = update s.pc i q })
    moved-Inv = record {
      holders = λ j. ground (arith, kept.holds j, inv.holders j);
      exclusive = λ j k in_j in_k. one_inside j k in_j in_k;
      permits = omega (arith, kept.counts, total-update claims n s.pc i q below, inv.permits);
      fresh =
          λ j. update-holds (λ a. IsFresh m.queue a) s.pc i q j (λ _. kept.fresh) (still_fresh j);
    }

  pub Step-Inv : (n : ℕ) {s t : System p T} → Inv n s → Step p n false s t → Inv n t
  Step-Inv n {s} inv (step i c below (inl no_signal) e) = moved-Inv n i s inv below (
      subst (Kept p i s.mem (s.pc i)) e (
        next-Kept p c i s.mem (s.pc i) no_signal (inv.holders i)
          (omega (arith, weight-le-total claims n s.pc i below, inv.permits)) (inv.fresh i)))
  Step-Inv n inv (step i c below (inr signals) e) = absurd (cc signals)

  pub created-Inv : (n : ℕ) → Inv n (created p T)
  unfolding Mutex.create Unix.create
  created-Inv n = record {
    holders = λ i. p.held-init i;
    exclusive = λ i j h k. absurd (omega arith);
    permits = omega (arith, p.getvalue-init 0, total-zero claims n (λ _. idle) (λ _. refl));
    fresh = λ i. tt;
  }

  pub Reach-Inv : (n : ℕ) {s t : System p T} → Inv n s → Reach p n false s t → Inv n t
  Reach-Inv n inv here = inv
  Reach-Inv n inv (later before last) = Step-Inv n (Reach-Inv n inv before) last
