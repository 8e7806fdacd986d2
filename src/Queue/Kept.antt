-- ===== src/Queue/Kept.antt =====
-- src/Queue.h: each step of a method, as far as the invariant sees it.
use ucxx.Base.{ℕ, suc, ◌≤◌, ◌≡◌, ◌≢◌, refl, [], ◌∷◌, lt→ltb, length, length-append, arith}
use native.Mathlib.Decide.{dec_lt}
use ucxx.Posix.{Posix}
use ucxx.Sema.Unix
use ucxx.Queue.Effects.{
  Shared, Pc, Choice, idle, dequeue_wait, dequeue_lock, dequeue_front, dequeue_pop, dequeue_unlock,
  enqueue_lock, enqueue_push, enqueue_notify, enqueue_unlock, head_lock, head_front, head_unlock,
  count_lock, count_size, count_unlock, clear_lock, clear_test, clear_wait, clear_assign,
  clear_unlock, call, go, interrupt, dequeue, head, count, clear, enqueue, start, pop_then, next,
}
use ucxx.Queue.Steps.{
  inside, claims, IsFresh, Kept, ltb-false, lock-Kept, unlock-Kept, wait-Kept, stay-Kept,
  front-Kept,
}

module _ (p : Posix) {T : Type 0} where
  open p use {
    held, sem_getvalue, held-lock, held-unlock, lock-blocks, wait-blocks, wait-enters,
    getvalue-post,
  }

  -- A step that is no interruption keeps what the invariant says of its thread.
  pub next-Kept :
      (c : Choice T) (i : ℕ) (m : Shared p T) (a : Pc T)
      → c ≢ interrupt
      → held m.mutex i ≡ inside a
      → claims a ≤ length m.queue
      → IsFresh m.queue a
      → Kept p i m a (next p c i m a)
  unfolding next start pop_then Unix.notify Unix.post_loop
  next-Kept (call dequeue) i m idle no_signal own few f =
      stay-Kept p i m idle dequeue_wait own refl refl tt
  next-Kept (call head) i m idle no_signal own few f =
      stay-Kept p i m idle head_lock own refl refl tt
  next-Kept (call count) i m idle no_signal own few f =
      stay-Kept p i m idle count_lock own refl refl tt
  next-Kept (call clear) i m idle no_signal own few f =
      stay-Kept p i m idle clear_lock own refl refl tt
  next-Kept (call (enqueue t)) i m idle no_signal own few f =
      stay-Kept p i m idle (enqueue_lock t) own refl refl tt
  next-Kept go i m dequeue_wait no_signal own few f =
      wait-Kept p i m dequeue_wait dequeue_lock own refl refl tt
  next-Kept go i m dequeue_lock no_signal own few f =
      lock-Kept p i m dequeue_lock dequeue_front own refl refl refl tt
  next-Kept go i m dequeue_front no_signal own few f =
      front-Kept p i m dequeue_front dequeue_pop own (λ e. refl) (λ e. refl) (λ e rest q. (rest, q))
  next-Kept go i m (dequeue_pop e) no_signal own few (rest, q) =
      rw (q, Kept, pop_then)
        record {
          holds = λ j. ground arith;
          enters = λ j other out_a h. absurd (omega arith);
          counts = rw q (omega arith);
          keeps = λ out_a. absurd (omega arith);
          fresh = tt;
        }
  next-Kept go i m (dequeue_unlock e) no_signal own few f =
      unlock-Kept p i m (dequeue_unlock e) idle own refl refl refl tt
  next-Kept go i m (enqueue_lock t) no_signal own few f =
      lock-Kept p i m (enqueue_lock t) (enqueue_push t) own refl refl refl tt
  next-Kept go i m (enqueue_push t) no_signal own few f = record {
    holds = λ j. ground arith;
    enters = λ j other out_a h. absurd (omega arith);
    counts = omega (arith, length-append m.queue (t ∷ []));
    keeps = λ out_a. absurd (omega arith);
    fresh = tt;
  }
  next-Kept go i m enqueue_notify no_signal own few f = record {
    holds = λ j. ground arith;
    enters = λ j other out_a h. absurd (omega arith);
    counts = omega (arith, getvalue-post m.semaphore);
    keeps = λ out_a. refl;
    fresh = tt;
  }
  next-Kept go i m enqueue_unlock no_signal own few f =
      unlock-Kept p i m enqueue_unlock idle own refl refl refl tt
  next-Kept go i m head_lock no_signal own few f =
      lock-Kept p i m head_lock head_front own refl refl refl tt
  next-Kept go i m head_front no_signal own few f =
      front-Kept p i m head_front head_unlock own (λ e. refl) (λ e. refl) (λ e rest q. tt)
  next-Kept go i m (head_unlock e) no_signal own few f =
      unlock-Kept p i m (head_unlock e) idle own refl refl refl tt
  next-Kept go i m count_lock no_signal own few f =
      lock-Kept p i m count_lock count_size own refl refl refl tt
  next-Kept go i m count_size no_signal own few f =
      stay-Kept p i m count_size (count_unlock (length m.queue)) own refl refl tt
  next-Kept go i m (count_unlock k) no_signal own few f =
      unlock-Kept p i m (count_unlock k) idle own refl refl refl tt
  next-Kept go i m clear_lock no_signal own few f =
      lock-Kept p i m clear_lock (clear_test 0) own refl refl refl tt
  next-Kept go i m (clear_test k) no_signal own few f = elim (dec_lt k (length m.queue)) [
    | yes more ↦
        rw (lt→ltb k (length m.queue) more)
          (stay-Kept p i m (clear_test k) (clear_wait k) own refl refl more)
    | no last ↦
        rw (ltb-false k (length m.queue) (omega arith))
          (stay-Kept p i m (clear_test k) (clear_assign k) own refl refl (omega arith))
  ]
  next-Kept go i m (clear_wait k) no_signal own few f =
      wait-Kept p i m (clear_wait k) (clear_test (suc k)) own refl refl tt
  next-Kept go i m (clear_assign k) no_signal own few f = record {
    holds = λ j. ground arith;
    enters = λ j other out_a h. absurd (omega arith);
    counts = omega arith;
    keeps = λ out_a. absurd (omega arith);
    fresh = tt;
  }
  next-Kept go i m clear_unlock no_signal own few f =
      unlock-Kept p i m clear_unlock idle own refl refl refl tt
  next-Kept interrupt i m a no_signal own few f = absurd (no_signal refl)
  next-Kept (call method) i m a no_signal own few f = tt
  next-Kept go i m idle no_signal own few f = tt
