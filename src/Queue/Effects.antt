-- ===== src/Queue/Effects.antt =====
-- src/Queue.h: the methods as sequences of steps, each a call of m_semaphore, m_mutex or m_queue.
use ucxx.Base.{ℕ, suc, List, [], ◌∷◌, ◌++◌, none, some, ltb, length, if◌then◌else◌}
use ucxx.Base.Int.{pos}
use ucxx.Mutex
use ucxx.Posix.{Posix}
use ucxx.Sema.Unix

-- What the threads share; `queue` has its front first.
pub record Shared (p : Posix) (T : Type 0) : Type 0 where
  pub mutex : p.MutexState
  pub semaphore : p.SemState
  pub queue : List T

-- Where a thread is: the step of a method that it makes next, with the local variables that are
-- still needed. `clear_assign` keeps the number of rounds that the loop has made.
pub data Pc (T : Type 0) : Type 0 where
  idle : Pc T
  dequeue_wait dequeue_lock dequeue_front : Pc T
  dequeue_pop dequeue_unlock : T → Pc T
  enqueue_lock enqueue_push : T → Pc T
  enqueue_notify enqueue_unlock : Pc T
  head_lock head_front : Pc T
  head_unlock : T → Pc T
  count_lock count_size : Pc T
  count_unlock : ℕ → Pc T
  clear_lock : Pc T
  clear_test clear_wait clear_assign : ℕ → Pc T
  clear_unlock : Pc T

pub data Method (T : Type 0) : Type 0 where
  dequeue head count clear : Method T
  enqueue : T → Method T

-- A thread that is in no method calls one; a thread in a method makes its next step, or its wait
-- for the semaphore is interrupted by a signal.
pub data Choice (T : Type 0) : Type 0 where
  call : Method T → Choice T
  go interrupt : Choice T

-- A step that blocks leaves everything as it is. `undefined`: front() or pop() of an empty queue.
pub data Effect (p : Posix) (T : Type 0) : Type 0 where
  moved : Shared p T → Pc T → Effect p T
  blocked undefined : Effect p T

module _ (p : Posix) {T : Type 0} where
  unfoldable pub start : Method T → Pc T
  start dequeue = dequeue_wait
  start head = head_lock
  start count = count_lock
  start clear = clear_lock
  start (enqueue t) = enqueue_lock t

  -- MutexLocker locker(&m_mutex), and its destructor.
  unfoldable pub lock_then : ℕ → Shared p T → Pc T → Effect p T
  lock_then i m next = elim (Mutex.lock p m.mutex i) [
    | none ↦ blocked
    | some mutex ↦ moved (record m { mutex = mutex }) next
  ]

  unfoldable pub unlock_then : ℕ → Shared p T → Pc T → Effect p T
  unlock_then i m next = moved (record m { mutex = Mutex.unlock p m.mutex i }) next

  -- m_semaphore.wait(), whose result is not used.
  unfoldable pub wait_then : Shared p T → Pc T → Effect p T
  wait_then m next = elim (p.sem_wait m.semaphore) [
    | none ↦ blocked
    | some semaphore ↦ moved (record m { semaphore = semaphore }) next
  ]

  unfoldable pub front_then : Shared p T → (T → Pc T) → Effect p T
  front_then m next = elim m.queue [ [] ↦ undefined | e ∷ rest ↦ moved m (next e) ]

  unfoldable pub pop_then : Shared p T → Pc T → Effect p T
  pop_then m next = elim m.queue [
    | [] ↦ undefined
    | e ∷ rest ↦ moved (record m { queue = rest }) next
  ]

  unfoldable pub next : Choice T → ℕ → Shared p T → Pc T → Effect p T
  next (call method) i m idle = moved m (start method)
  next go i m dequeue_wait = wait_then m dequeue_lock
  next interrupt i m dequeue_wait = moved m dequeue_lock
  next go i m dequeue_lock = lock_then i m dequeue_front
  next go i m dequeue_front = front_then m dequeue_pop
  next go i m (dequeue_pop e) = pop_then m (dequeue_unlock e)
  next go i m (dequeue_unlock e) = unlock_then i m idle
  next go i m (enqueue_lock t) = lock_then i m (enqueue_push t)
  next go i m (enqueue_push t) = moved (record m { queue = m.queue ++ t ∷ [] }) enqueue_notify
  next go i m enqueue_notify =
      moved (record m { semaphore = Unix.notify p m.semaphore (pos 1) }) enqueue_unlock
  next go i m enqueue_unlock = unlock_then i m idle
  next go i m head_lock = lock_then i m head_front
  next go i m head_front = front_then m head_unlock
  next go i m (head_unlock e) = unlock_then i m idle
  next go i m count_lock = lock_then i m count_size
  next go i m count_size = moved m (count_unlock (length m.queue))
  next go i m (count_unlock n) = unlock_then i m idle
  next go i m clear_lock = lock_then i m (clear_test 0)
  next go i m (clear_test k) =
      moved m (if ltb k (length m.queue) then clear_wait k else clear_assign k)
  next go i m (clear_wait k) = wait_then m (clear_test (suc k))
  next interrupt i m (clear_wait k) = moved m (clear_test (suc k))
  next go i m (clear_assign k) = moved (record m { queue = [] }) clear_unlock
  next go i m clear_unlock = unlock_then i m idle
  next _ i m _ = blocked
