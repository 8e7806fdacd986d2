-- ===== src/Queue/Tests.antt =====
-- Runs of a queue of src/Queue.h, and its laws on them.
use ucxx.Base.{ℕ, zero, suc, ◌≡◌, ◌≢◌, refl, true, false, List, [], ◌∷◌, ◌++◌, arith}
use ucxx.Posix.{simple_posix}
use ucxx.Mutex
use ucxx.Sema.Unix
use ucxx.Queue.Effects.{
  Choice, Method, call, go, interrupt, moved, dequeue, enqueue, clear, head, count, dequeue_lock,
  dequeue_front, undefined, next, start, lock_then, unlock_then, wait_then, front_then, pop_then,
}
use ucxx.Queue.System.{System, created, Reach, here}
use ucxx.Queue.Invariant.{Inv}
use ucxx.Queue.Safety.{reached-Inv, dequeue_defined}
use ucxx.Queue.Order.{pushes, removals, pushes-removals}
use ucxx.Queue.Deadlock.{clear_deadlock, is_clearing}
use ucxx.Queue.Schedule.{schedule, is_schedule, schedule-Reach}

running : ℕ
unfolding next start lock_then unlock_then wait_then front_then pop_then Mutex.create Mutex.lock
    Mutex.unlock Unix.create Unix.notify Unix.post_loop Unix.value
running = 0

-- Thread `i` calls a method and makes `n` steps of it.
abbrev goes : ℕ → ℕ → List (ℕ × Choice ℕ)
goes i zero = []
goes i (suc n) = (i, go) ∷ goes i n

abbrev calls : ℕ → Method ℕ → ℕ → List (ℕ × Choice ℕ)
calls i method n = (i, call method) ∷ goes i n

abbrev new : System simple_posix ℕ
new = created simple_posix ℕ

abbrev after : List (ℕ × Choice ℕ) → System simple_posix ℕ
after choices = schedule simple_posix new choices

abbrev two_enqueued : List (ℕ × Choice ℕ)
two_enqueued = calls 0 (enqueue 7) 4 ++ calls 1 (enqueue 8) 4

-- A head, a count and two dequeues by another thread.
abbrev emptied : List (ℕ × Choice ℕ)
emptied =
    two_enqueued ++ calls 1 head 3 ++ calls 1 count 3 ++ calls 2 dequeue 5 ++ calls 2 dequeue 5

abbrev clearing_against_dequeue : List (ℕ × Choice ℕ)
clearing_against_dequeue = calls 0 (enqueue 7) 4 ++ calls 1 dequeue 1 ++ calls 0 clear 1

runs :
    ((after two_enqueued).mem.queue ≡ 7 ∷ 8 ∷ [])
    × ((after emptied).mem.queue ≡ [])
    × ((after (two_enqueued ++ calls 1 clear 7)).mem.queue ≡ [])
    × ((after (two_enqueued ++ calls 1 clear 7)).mem.semaphore ≡ 0)
unfolding running
runs = (refl, refl, refl, refl)

-- head() of an empty queue, and a dequeue whose wait a signal has interrupted.
undefined_runs :
    (next simple_posix go 0 (after (calls 0 head 1)).mem ((after (calls 0 head 1)).pc 0)
      ≡ undefined)
    × (next simple_posix interrupt 0
          (after (calls 0 dequeue 0)).mem
          ((after (calls 0 dequeue 0)).pc 0)
        ≡ moved new.mem dequeue_lock)
    × (next simple_posix go 0 new.mem dequeue_front ≡ undefined)
unfolding running
undefined_runs = (refl, refl, refl)

reached :
    (choices : List (ℕ × Choice ℕ))
    → is_schedule simple_posix 3 new choices ≡ true
    → Reach simple_posix 3 false new (after choices)
reached choices ok = schedule-Reach simple_posix 3 new choices ok

emptied_run : Reach simple_posix 3 false new (after emptied)
unfolding running
emptied_run = reached emptied refl

stuck_run : Reach simple_posix 3 false new (after clearing_against_dequeue)
unfolding running
stuck_run = reached clearing_against_dequeue refl

taking_run : Reach simple_posix 3 false new (after (two_enqueued ++ calls 2 dequeue 2))
unfolding running
taking_run = reached (two_enqueued ++ calls 2 dequeue 2) refl

reached-Inv_example : Inv simple_posix 3 (after emptied)
reached-Inv_example = reached-Inv simple_posix 3 emptied_run

dequeue_defined_example :
    next simple_posix go 2 (after (two_enqueued ++ calls 2 dequeue 2)).mem dequeue_front ≢ undefined
unfolding running
dequeue_defined_example = dequeue_defined simple_posix 3 2 taking_run (omega arith) refl

pushes-removals_example :
    pushes simple_posix 3 emptied_run
    ≡ removals simple_posix 3 emptied_run ++ (after emptied).mem.queue
pushes-removals_example = pushes-removals simple_posix 3 emptied_run

clear_deadlock_example :
    (is_clearing ((after clearing_against_dequeue).pc 0) ≡ true)
    × ((after clearing_against_dequeue).pc 1 ≡ dequeue_lock)
unfolding running
clear_deadlock_example =
    clear_deadlock simple_posix 3 0 1 (omega arith) (omega arith) (λ e. absurd (omega arith))
      stuck_run refl refl here
