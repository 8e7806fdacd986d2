-- ===== src/Queue/Deadlock.antt =====
-- src/Queue.h: Queue::clear waits for permits while it holds the mutex.
use ucxx.Base.{
  ℕ, ◌<◌, ◌≡◌, ◌≢◌, refl, subst, Bool, true, false, none, lt→ltb, lt→ltb, length, arith, inl, inr,
  Option-cases,
}
use native.Mathlib.Decide.{dec_lt}
use ucxx.Base.Threads.{update-holds, weights-le-total}
use ucxx.Mutex
use ucxx.Posix.{Posix}
use ucxx.Queue.Effects.{
  Shared, Pc, Choice, Effect, dequeue_lock, clear_test, clear_wait, call, go, interrupt, moved,
  blocked, undefined, lock_then, wait_then, next,
}
use ucxx.Queue.System.{System, created, Step, step, Reach, here, later}
use ucxx.Queue.Steps.{inside, claims}
use ucxx.Queue.Invariant.{Inv, created-Inv, Reach-Inv, Step-Inv}

abbrev pub is_clearing : {T : Type 0} → Pc T → Bool
is_clearing (clear_test k) = true
is_clearing (clear_wait k) = true
is_clearing _ = false

-- Where a step of the loop leads.
Clears : {p : Posix} {T : Type 0} → Effect p T → Type 0
Clears (moved m q) = is_clearing q ≡ true
Clears blocked = Unit {0}
Clears undefined = Unit {0}

module _ (p : Posix) {T : Type 0} where
  lock-blocked :
      (c : Choice T) (i : ℕ) (m : Shared p T) {m' : Shared p T} {q : Pc T}
      → p.mutex_lock m.mutex i ≡ none
      → next p c i m dequeue_lock ≢ moved m' q
  unfolding next lock_then Mutex.lock
  lock-blocked go i m busy = rw (busy, lock_then, Mutex.lock) (λ e. cc e)
  lock-blocked interrupt i m busy = λ e. cc e
  lock-blocked (call method) i m busy = λ e. cc e

  next-Clears :
      (c : Choice T) (i : ℕ) (m : Shared p T) (a : Pc T)
      → is_clearing a ≡ true
      → claims a < length m.queue
      → Clears (next p c i m a)
  unfolding next Clears wait_then
  next-Clears go i m (clear_test k) clearing more = rw (lt→ltb k (length m.queue) more) refl
  next-Clears go i m (clear_wait k) clearing more = elim (Option-cases (p.sem_wait m.semaphore)) [
    | inl blocks ↦ rw (blocks, Clears, wait_then) tt
    | inr (x, enters) ↦ rw (enters, Clears, wait_then) refl
  ]
  next-Clears interrupt i m (clear_wait k) clearing more = refl
  next-Clears interrupt i m (clear_test k) clearing more = tt
  next-Clears (call method) i m (clear_wait k) clearing more = tt
  next-Clears (call method) i m (clear_test k) clearing more = tt
  next-Clears c i m _ clearing more = absurd (cc clearing)

clearing-inside : {T : Type 0} (a : Pc T) → is_clearing a ≡ true → inside a ≡ 1
clearing-inside (clear_test k) clearing = refl
clearing-inside (clear_wait k) clearing = refl
clearing-inside _ clearing = absurd (cc clearing)

module _ (p : Posix) {T : Type 0} (n i j : ℕ) where
  -- Thread `i` is in the loop of clear() and thread `j` has taken a permit and waits for the mutex.
  record Stuck (s : System p T) : Type 0 where
    inv : Inv p n s
    clearing : is_clearing (s.pc i) ≡ true
    waiting : s.pc j ≡ dequeue_lock

  permit_missing :
      {s : System p T} → i < n → j < n → i ≢ j → Stuck s → claims (s.pc i) < length s.mem.queue
  permit_missing {s} i_below j_below apart stuck =
      let one : claims (s.pc j) ≡ 1 = rw stuck.waiting refl in
      elim (dec_lt i j) [
        | yes first ↦
            omega (arith, weights-le-total claims n s.pc i j first j_below, stuck.inv.permits)
        | no second ↦
            omega
              (arith, weights-le-total claims n s.pc j i (ground arith) i_below, stuck.inv.permits)
      ]

  locked_out :
      {s : System p T}
      → i < n
      → j < n
      → i ≢ j
      → Stuck s
      → (l : ℕ) (c : Choice T) {m : Shared p T} {q : Pc T} → l ≡ j
      → next p c l s.mem (s.pc l) ≢ moved m q
  locked_out {s} i_below j_below apart stuck l c {m} {q} at =
      rw (at, stuck.waiting)
        (lock-blocked p c j s.mem (
          p.lock-blocks s.mem.mutex j i (ground arith)
            (omega (arith, stuck.inv.holders i, clearing-inside (s.pc i) stuck.clearing))))

  Step-Stuck : {s t : System p T} → i < n → j < n → i ≢ j → Stuck s → Step p n false s t → Stuck t
  unfolding Clears
  Step-Stuck {s} i_below j_below apart stuck (step l c {m} {q} below allowed e) = record {
    inv = Step-Inv p n stuck.inv (step l c below allowed e);
    clearing =
        update-holds (λ a. is_clearing a ≡ true) s.pc l q i
          (λ at. subst Clears e (
            next-Clears p c l s.mem (s.pc l) (rw at stuck.clearing)
              (rw at (permit_missing i_below j_below apart stuck))))
          (λ off. stuck.clearing);
    waiting =
        update-holds (λ a. a ≡ dequeue_lock) s.pc l q j
          (λ at. absurd (locked_out i_below j_below apart stuck l c at e)) (λ off. stuck.waiting);
  }

  Reach-Stuck : {s t : System p T} → i < n → j < n → i ≢ j → Stuck s → Reach p n false s t → Stuck t
  Reach-Stuck i_below j_below apart stuck here = stuck
  Reach-Stuck i_below j_below apart stuck (later before last) =
      Step-Stuck i_below j_below apart (Reach-Stuck i_below j_below apart stuck before) last

  -- Threads share a new queue, and no wait is interrupted by a signal. Once one of them is in the
  -- loop of clear() while another has taken a permit to dequeue and has not yet locked the mutex,
  -- both stay there, whatever the others do.
  pub clear_deadlock :
      {s t : System p T}
      → i < n
      → j < n
      → i ≢ j
      → Reach p n false (created p T) s
      → is_clearing (s.pc i) ≡ true
      → s.pc j ≡ dequeue_lock
      → Reach p n false s t
      → (is_clearing (t.pc i) ≡ true) × (t.pc j ≡ dequeue_lock)
  clear_deadlock i_below j_below apart before clearing waiting run =
      let stuck =
        Reach-Stuck i_below j_below apart
          (record {
            inv = Reach-Inv p n (created-Inv p n) before;
            clearing = clearing;
            waiting = waiting;
          })
          run in
      (stuck.clearing, stuck.waiting)
