-- ===== src/Queue/Safety.antt =====
-- src/Queue.h: what holds of a queue however its threads interleave.
use ucxx.Base.{
  ℕ, ◌≤◌, ◌<◌, ◌≡◌, ◌≢◌, refl, ap, Bool, true, false, length, arith, inl, inr, Option-cases,
}
use ucxx.Base.Threads.{total-zero, weight-le-total}
use ucxx.Mutex
use ucxx.Posix.{Posix}
use ucxx.Sema.Unix
use ucxx.Queue.Effects.{
  Shared, Pc, idle, dequeue_wait, dequeue_lock, dequeue_front, dequeue_pop, dequeue_unlock, go,
  undefined, lock_then, unlock_then, wait_then, front_then, pop_then, next,
}
use ucxx.Queue.System.{System, created, Reach}
use ucxx.Queue.Steps.{claims, IsFresh, List-cases}
use ucxx.Queue.Invariant.{Inv, created-Inv, Reach-Inv}

abbrev pub is_dequeue : {T : Type 0} → Pc T → Bool
is_dequeue dequeue_wait = true
is_dequeue dequeue_lock = true
is_dequeue dequeue_front = true
is_dequeue (dequeue_pop e) = true
is_dequeue (dequeue_unlock e) = true
is_dequeue _ = false

module _ (p : Posix) {T : Type 0} (m : Shared p T) where
  lock_then-defined : (i : ℕ) (b : Pc T) → lock_then p i m b ≢ undefined
  unfolding lock_then Mutex.lock
  lock_then-defined i b = elim (Option-cases (p.mutex_lock m.mutex i)) [
    | inl blocks ↦ rw (blocks, lock_then, Mutex.lock) (λ e. cc e)
    | inr (x, enters) ↦ rw (enters, lock_then, Mutex.lock) (λ e. cc e)
  ]

  wait_then-defined : (b : Pc T) → wait_then p m b ≢ undefined
  unfolding wait_then
  wait_then-defined b = elim (Option-cases (p.sem_wait m.semaphore)) [
    | inl blocks ↦ rw (blocks, wait_then) (λ e. cc e)
    | inr (x, enters) ↦ rw (enters, wait_then) (λ e. cc e)
  ]

  front_then-defined : (f : T → Pc T) → 0 < length m.queue → front_then p m f ≢ undefined
  unfolding front_then
  front_then-defined f some_element = elim (List-cases m.queue) [
    | inl empty ↦ absurd (omega (arith, ap length empty))
    | inr (e, rest, q) ↦ rw (q, front_then) (λ e. cc e)
  ]

  dequeue_step-defined :
      (i : ℕ) (a : Pc T)
      → is_dequeue a ≡ true
      → claims a ≤ length m.queue
      → IsFresh m.queue a
      → next p go i m a ≢ undefined
  unfolding next unlock_then pop_then
  dequeue_step-defined i dequeue_wait taking few f = wait_then-defined dequeue_lock
  dequeue_step-defined i dequeue_lock taking few f = lock_then-defined i dequeue_front
  dequeue_step-defined i dequeue_front taking few f = front_then-defined dequeue_pop few
  dequeue_step-defined i (dequeue_pop e) taking few (rest, q) = rw (q, pop_then) (λ e. cc e)
  dequeue_step-defined i (dequeue_unlock e) taking few f = λ e. cc e
  dequeue_step-defined i _ taking few f = absurd (cc taking)

module _ (p : Posix) {T : Type 0} (n : ℕ) {s : System p T} where
  -- However threads that share a new queue interleave, with no wait interrupted by a signal: at
  -- most one of them is between the lock and the unlock of the mutex, each holds the mutex as often
  -- as its step says, and the semaphore has a permit for each element that no thread has claimed.
  pub reached-Inv : Reach p n false (created p T) s → Inv p n s
  reached-Inv run = Reach-Inv p n (created-Inv p n) run

  -- However threads that share a new queue interleave, with no wait interrupted by a signal: no
  -- step of a dequeue calls front() or pop() on an empty queue.
  pub dequeue_defined :
      (i : ℕ)
      → Reach p n false (created p T) s
      → i < n
      → is_dequeue (s.pc i) ≡ true
      → next p go i s.mem (s.pc i) ≢ undefined
  dequeue_defined i run below taking =
      let inv = reached-Inv run in
      dequeue_step-defined p s.mem i (s.pc i) taking
        (omega (arith, weight-le-total claims n s.pc i below, inv.permits)) (inv.fresh i)

  -- However threads that share a new queue interleave, with no wait interrupted by a signal: when
  -- all of them are outside of its methods, the semaphore counts the elements of the queue.
  pub idle_count :
      Reach p n false (created p T) s
      → ((i : ℕ) → s.pc i ≡ idle)
      → Unix.value p s.mem.semaphore ≡ length s.mem.queue
  unfolding Unix.value
  idle_count run rest =
      omega (arith, (reached-Inv run).permits, total-zero claims n s.pc (λ i. rw (rest i) refl))
