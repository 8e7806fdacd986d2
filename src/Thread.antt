-- ===== src/Thread.antt =====
-- src/Thread.h, src/Thread.cpp with POSIX threads: a thread that waits on its start semaphore, and
-- the threads that use it, their calls of the system in any order. The deadlines of Thread::sleep
-- are in Sema/Deadline.
pub mod Priority
pub mod Win32
pub mod Invariant
pub mod Clients
pub mod Laws
pub mod Moves
pub mod Progress
mod Tests
use ucxx.Base.{◌&&◌, ℕ, suc, ◌≡◌, ◌≢◌, ◌⊎◌, Bool, true, false, Option, none, some, if◌then◌else◌}
use ucxx.Base.Int.{pos}
use ucxx.Base.Threads.{update}
use ucxx.Mutex
use ucxx.Posix.{Posix}
use ucxx.Sema.Unix

-- Where threadRunner is. setRunning(b) locks, writes and unlocks; `body` is run(). `cancelled`:
-- pthread_cancel has ended the thread.
pub data Runner : Type 0 where
  waiting body finished cancelled : Runner
  set_lock set_write set_unlock : Bool → Runner

-- Where another thread is in a call of isRunning or join; `reported` is what isRunning has read.
-- The system allows one join of a thread; the model lets any number return.
pub data Client : Type 0 where
  outside is_running_lock is_running_read : Client
  reported : Bool → Client
  joining : Client

-- A Thread object with the threads around it. `runnable` is whether m_pRunnable is given; the last
-- three fields are no members: a pending pthread_cancel, and how often start() has been called and
-- the runnable's run() has returned.
pub record Thread (p : Posix) : Type 0 where
  pub start_semaphore : p.SemState
  pub mutex : p.MutexState
  pub running : Bool
  pub runnable : Bool
  pub runner : Runner
  pub clients : ℕ → Client
  pub cancel_pending : Bool
  pub starts : ℕ
  pub runs : ℕ

-- sem_wait may come back interrupted; `cancel` is a pending cancellation that takes effect.
pub data RunnerChoice : Type 0 where
  go interrupt cancel : RunnerChoice

pub data ClientChoice : Type 0 where
  start terminate is_running join next : ClientChoice

-- pthread_cancel takes effect in a call that waits, or in what the runnable does.
abbrev is_cancellable : Runner → Bool
is_cancellable waiting = true
is_cancellable body = true
is_cancellable _ = false

unfoldable pub is_ended : Runner → Bool
is_ended finished = true
is_ended cancelled = true
is_ended _ = false

-- Behind setRunning.
abbrev pub after_set : Bool → Runner
after_set true = body
after_set false = finished

-- The number of the system's thread that threadRunner is; client `i` is the thread `suc i`.
abbrev pub self : ℕ
self = 0

module _ (p : Posix) where
  -- Thread(IRunnable *pRunnable)
  unfoldable pub create : Bool → Thread p
  create runnable = record {
    start_semaphore = Unix.create p 0;
    mutex = Mutex.create p;
    running = false;
    runnable = runnable;
    runner = waiting;
    clients = λ _. outside;
    cancel_pending = false;
    starts = 0;
    runs = 0;
  }

  abbrev pub at : Thread p → Runner → Thread p
  at t r = record t { runner = r }

  -- `none`: the step blocks, or there is none.
  unfoldable pub set_running : Bool → Thread p → Runner → Option (Thread p)
  set_running value t (set_lock _) = elim (Mutex.lock p t.mutex self) [
    | none ↦ none
    | some m ↦ some (record t { mutex = m; runner = set_write value })
  ]
  set_running value t (set_write _) = some (record t { running = value; runner = set_unlock value })
  set_running value t (set_unlock _) =
      some (record t { mutex = Mutex.unlock p t.mutex self; runner = after_set value })
  set_running value t _ = none

  -- Thread::run
  unfoldable pub run : Thread p → Thread p
  run t = if t.runnable then record t { runs = suc t.runs } else t

  -- threadRunner
  unfoldable pub thread_runner : RunnerChoice → Thread p → Runner → Option (Thread p)
  thread_runner go t waiting = elim (p.sem_wait t.start_semaphore) [
    | none ↦ none
    | some s ↦ some (record t { start_semaphore = s; runner = set_lock true })
  ]
  thread_runner interrupt t waiting = some (at t (set_lock true))
  thread_runner go t body = some (at (run t) (set_lock false))
  thread_runner go t (set_lock b) = set_running b t (set_lock b)
  thread_runner go t (set_write b) = set_running b t (set_write b)
  thread_runner go t (set_unlock b) = set_running b t (set_unlock b)
  thread_runner cancel t r =
      if t.cancel_pending && is_cancellable r then some (at t cancelled) else none
  thread_runner _ t _ = none

  abbrev pub moves : Thread p → ℕ → Client → Thread p
  moves t i c = record t { clients = update t.clients i c }

  -- The methods that other threads call: start, terminate, and the steps of isRunning and of join.
  unfoldable pub client_step : ClientChoice → ℕ → Thread p → Client → Option (Thread p)
  client_step start i t outside = some (record t {
    start_semaphore = Unix.notify p t.start_semaphore (pos 1);
    starts = suc t.starts;
  })
  client_step terminate i t outside = some (record t { cancel_pending = true })
  client_step is_running i t outside = some (moves t i is_running_lock)
  client_step join i t outside = some (moves t i joining)
  client_step next i t is_running_lock = elim (Mutex.lock p t.mutex (suc i)) [
    | none ↦ none
    | some m ↦ some (record (moves t i is_running_read) { mutex = m })
  ]
  client_step next i t is_running_read = some (moves t i (reported t.running))
  client_step next i t (reported b) =
      some (record (moves t i outside) { mutex = Mutex.unlock p t.mutex (suc i) })
  client_step next i t joining = if is_ended t.runner then some (moves t i outside) else none
  client_step _ i t _ = none

  -- Any thread makes its next step; waits are interrupted only where `signals` allows it.
  pub data Step (signals : Bool) (t : Thread p) : Thread p → Type 0 where
    runner_moves :
        (c : RunnerChoice) {u : Thread p}
        → (c ≢ interrupt) ⊎ (signals ≡ true)
        → thread_runner c t t.runner ≡ some u
        → Step signals t u
    client_moves :
        (i : ℕ) (c : ClientChoice) {u : Thread p}
        → client_step c i t (t.clients i) ≡ some u
        → Step signals t u

  pub data Reach (signals : Bool) (t : Thread p) : Thread p → Type 0 where
    here : Reach signals t t
    later : {u v : Thread p} → Reach signals t u → Step signals u v → Reach signals t v
