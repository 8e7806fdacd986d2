-- ===== src/Queue/Order.antt =====
-- src/Queue.h: the order in which elements leave the queue.
use ucxx.Base.{
  ℕ, suc, ◌≡◌, refl, ◌∙◌, subst, false, List, [], ◌∷◌, ◌++◌, append-nil, append_assoc, inl, inr,
  Option-cases,
}
use ucxx.Mutex
use ucxx.Posix.{Posix}
use ucxx.Queue.Effects.{
  Shared, Pc, Choice, Effect, idle, dequeue_wait, dequeue_lock, dequeue_front, dequeue_pop,
  enqueue_lock, enqueue_push, head_lock, head_front, head_unlock, count_lock, count_size,
  clear_lock, clear_test, clear_wait, clear_assign, call, go, interrupt, moved, blocked, undefined,
  start, lock_then, unlock_then, wait_then, front_then, pop_then, next,
}
use ucxx.Queue.System.{System, created, step, Reach, here, later}
use ucxx.Queue.Steps.{IsFresh, List-cases}
use ucxx.Queue.Invariant.{created-Inv, Reach-Inv}

-- What a thread's next step puts into the queue, and what it takes out: the element that a dequeue
-- returns, or all that clear() drops.
abbrev pub pushed : {T : Type 0} → Pc T → List T
pushed (enqueue_push t) = t ∷ []
pushed _ = []

abbrev pub removed : {p : Posix} {T : Type 0} → Shared p T → Pc T → List T
removed m (dequeue_pop e) = e ∷ []
removed m (clear_assign k) = m.queue
removed m _ = []

module _ (p : Posix) {T : Type 0} where
  unfoldable pub pushes : (n : ℕ) {s t : System p T} → Reach p n false s t → List T
  pushes n here = []
  pushes n (later {t} before (step i c below allowed e)) = pushes n before ++ pushed (t.pc i)

  unfoldable pub removals : (n : ℕ) {s t : System p T} → Reach p n false s t → List T
  removals n here = []
  removals n (later {t} before (step i c below allowed e)) =
      removals n before ++ removed t.mem (t.pc i)

  abbrev Ordered : Shared p T → Pc T → Effect p T → Type 0
  Ordered m a (moved m' b) = m.queue ++ pushed a ≡ removed m a ++ m'.queue
  Ordered m a blocked = Unit {0}
  Ordered m a undefined = Unit {0}

  module _ (i : ℕ) (m : Shared p T) (a : Pc T) (puts : pushed a ≡ [])
      (takes : removed m a ≡ []) where
    stay-Ordered : (m' : Shared p T) (b : Pc T) → m'.queue ≡ m.queue → Ordered m a (moved m' b)
    stay-Ordered m' b same = rw (puts, takes, same) (append-nil m.queue)

    lock-Ordered : (b : Pc T) → Ordered m a (lock_then p i m b)
    unfolding lock_then Mutex.lock
    lock-Ordered b = elim (Option-cases (p.mutex_lock m.mutex i)) [
      | inl blocks ↦ rw (blocks, Ordered, lock_then, Mutex.lock) tt
      | inr (x, enters) ↦
          rw (enters, Ordered, lock_then, Mutex.lock) (stay-Ordered (record m { mutex = x }) b refl)
    ]

    wait-Ordered : (b : Pc T) → Ordered m a (wait_then p m b)
    unfolding wait_then
    wait-Ordered b = elim (Option-cases (p.sem_wait m.semaphore)) [
      | inl blocks ↦ rw (blocks, Ordered, wait_then) tt
      | inr (x, enters) ↦
          rw (enters, Ordered, wait_then) (stay-Ordered (record m { semaphore = x }) b refl)
    ]

    front-Ordered : (f : T → Pc T) → Ordered m a (front_then p m f)
    unfolding front_then
    front-Ordered f = elim (List-cases m.queue) [
      | inl empty ↦ rw (empty, Ordered, front_then) tt
      | inr (e, rest, q) ↦ rw (q, Ordered, front_then) (stay-Ordered m (f e) refl)
    ]

  next-Ordered :
      (c : Choice T) (i : ℕ) (m : Shared p T) (a : Pc T)
      → IsFresh m.queue a
      → Ordered m a (next p c i m a)
  unfolding next start pop_then unlock_then
  next-Ordered go i m dequeue_wait f = wait-Ordered i m dequeue_wait refl refl dequeue_lock
  next-Ordered go i m dequeue_lock f = lock-Ordered i m dequeue_lock refl refl dequeue_front
  next-Ordered go i m dequeue_front f = front-Ordered i m dequeue_front refl refl dequeue_pop
  next-Ordered go i m (dequeue_pop e) (rest, q) = rw (q, Ordered, pop_then) (append-nil m.queue ∙ q)
  next-Ordered go i m (enqueue_lock t) f =
      lock-Ordered i m (enqueue_lock t) refl refl (enqueue_push t)
  next-Ordered go i m (enqueue_push t) f = refl
  next-Ordered go i m head_lock f = lock-Ordered i m head_lock refl refl head_front
  next-Ordered go i m head_front f = front-Ordered i m head_front refl refl head_unlock
  next-Ordered go i m count_lock f = lock-Ordered i m count_lock refl refl count_size
  next-Ordered go i m clear_lock f = lock-Ordered i m clear_lock refl refl (clear_test 0)
  next-Ordered go i m (clear_wait k) f =
      wait-Ordered i m (clear_wait k) refl refl (clear_test (suc k))
  next-Ordered go i m (clear_assign k) f = refl
  next-Ordered go i m idle f = tt
  next-Ordered go i m a f = append-nil m.queue
  next-Ordered interrupt i m dequeue_wait f = append-nil m.queue
  next-Ordered interrupt i m (clear_wait k) f = append-nil m.queue
  next-Ordered interrupt i m a f = tt
  next-Ordered (call method) i m idle f = append-nil m.queue
  next-Ordered (call method) i m a f = tt

  -- However threads that share a new queue interleave, with no wait interrupted by a signal: the
  -- elements that have been enqueued are, in their order, those that have left the queue followed
  -- by those in it.
  pub pushes-removals :
      (n : ℕ) {s : System p T} (run : Reach p n false (created p T) s)
      → pushes n run ≡ removals n run ++ s.mem.queue
  unfolding pushes removals
  pushes-removals n here = refl
  pushes-removals n (later {t} before (step i c {m} {q} below allowed e)) =
      let ordered : t.mem.queue ++ pushed (t.pc i) ≡ removed t.mem (t.pc i) ++ m.queue =
        subst (Ordered t.mem (t.pc i)) e
          (next-Ordered c i t.mem (t.pc i) ((Reach-Inv p n (created-Inv p n) before).fresh i)) in
      cc (
        pushes-removals n before,
        ordered,
        append_assoc (removals n before) t.mem.queue (pushed (t.pc i)),
        append_assoc (removals n before) (removed t.mem (t.pc i)) m.queue,
      )
