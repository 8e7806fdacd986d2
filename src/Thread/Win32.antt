-- ===== src/Thread/Win32.antt =====
-- src/Thread.h, src/Thread.cpp under WIN32: a thread that is created suspended, and the threads that
-- use it, their calls of the system in any order. An assertion that fails ends the program.
pub mod Invariant
pub mod Clients
pub mod Laws
mod Tests
use ucxx.Base.{
  ◌&&◌, ℕ, suc, ◌≡◌, ◌≢◌, ◌⊎◌, Bool, true, false, not, Option, none, some, if◌then◌else◌,
}
use ucxx.Base.Threads.{update}
use ucxx.Mutex.Win32
use ucxx.Mutex.Win32.{Kernel, LockResult, blocks, asserts, locked}
use ucxx.Thread.{
  Runner, waiting, body, finished, cancelled, set_lock, set_write, set_unlock, Client, outside,
  is_running_lock, is_running_read, reported, joining, ClientChoice, start, terminate, is_running,
  join, next, is_ended, after_set, self,
}

-- A Thread object with the threads around it. `cancelled` is a thread that TerminateThread has
-- ended. `suspended` is the system's; the last fields are no members: a TerminateThread that has
-- been called, a failed assertion, and how often start() has been called and the runnable's run()
-- has returned.
pub record Thread (k : Kernel) : Type 0 where
  pub mutex : k.HandleState
  pub running : Bool
  pub runnable : Bool
  pub suspended : Bool
  pub runner : Runner
  pub clients : ℕ → Client
  pub terminating : Bool
  pub aborted : Bool
  pub starts : ℕ
  pub runs : ℕ

-- The thread goes on, or TerminateThread takes effect.
pub data RunnerChoice : Type 0 where
  go die : RunnerChoice

module _ (k : Kernel) where
  -- Thread(IRunnable *pRunnable)
  unfoldable pub create : Bool → Thread k
  create runnable = record {
    mutex = Win32.create k;
    running = false;
    runnable = runnable;
    suspended = true;
    runner = set_lock true;
    clients = λ _. outside;
    terminating = false;
    aborted = false;
    starts = 0;
    runs = 0;
  }

  -- `none`: the step blocks, or there is none.
  unfoldable pub set_running : Bool → Thread k → Runner → Option (Thread k)
  set_running value t (set_lock _) = elim (Win32.lock k t.mutex self) [
    | blocks ↦ none
    | asserts m ↦ some (record t { mutex = m; aborted = true })
    | locked m ↦ some (record t { mutex = m; runner = set_write value })
  ]
  set_running value t (set_write _) = some (record t { running = value; runner = set_unlock value })
  set_running value t (set_unlock _) =
      some (record t { mutex = Win32.unlock k t.mutex self; runner = after_set value })
  set_running value t _ = none

  -- Thread::run
  unfoldable pub run : Thread k → Thread k
  run t = if t.runnable then record t { runs = suc t.runs } else t

  -- threadRunner, of a thread that has been resumed.
  unfoldable pub resumed_runner : Thread k → Runner → Option (Thread k)
  resumed_runner t body = some (record (run t) { runner = set_lock false })
  resumed_runner t (set_lock b) = set_running b t (set_lock b)
  resumed_runner t (set_write b) = set_running b t (set_write b)
  resumed_runner t (set_unlock b) = set_running b t (set_unlock b)
  resumed_runner t _ = none

  unfoldable pub thread_runner : RunnerChoice → Thread k → Runner → Option (Thread k)
  thread_runner go t r = if t.suspended then none else resumed_runner t r
  thread_runner die t r =
      if t.terminating && not (is_ended r)
      then some (record t { runner = cancelled; mutex = k.terminate_thread t.mutex self })
      else none

  abbrev pub moves : Thread k → ℕ → Client → Thread k
  moves t i c = record t { clients = update t.clients i c }

  -- The methods that other threads call: start, terminate, and the steps of isRunning and of join.
  unfoldable pub client_step : ClientChoice → ℕ → Thread k → Client → Option (Thread k)
  client_step start i t outside = some (record t { suspended = false; starts = suc t.starts })
  client_step terminate i t outside = some (record t { terminating = true })
  client_step is_running i t outside = some (moves t i is_running_lock)
  client_step join i t outside = some (moves t i joining)
  client_step next i t is_running_lock = elim (Win32.lock k t.mutex (suc i)) [
    | blocks ↦ none
    | asserts m ↦ some (record t { mutex = m; aborted = true })
    | locked m ↦ some (record (moves t i is_running_read) { mutex = m })
  ]
  client_step next i t is_running_read = some (moves t i (reported t.running))
  client_step next i t (reported b) =
      some (record (moves t i outside) { mutex = Win32.unlock k t.mutex (suc i) })
  client_step next i t joining = if is_ended t.runner then some (moves t i outside) else none
  client_step _ i t _ = none

  -- Any thread makes its next step, as long as no assertion has failed; terminate() is called only
  -- where `kills` allows it.
  pub data Step (kills : Bool) (t : Thread k) : Thread k → Type 0 where
    runner_moves :
        (c : RunnerChoice) {u : Thread k}
        → t.aborted ≡ false
        → thread_runner c t t.runner ≡ some u
        → Step kills t u
    client_moves :
        (i : ℕ) (c : ClientChoice) {u : Thread k}
        → t.aborted ≡ false
        → (c ≢ terminate) ⊎ (kills ≡ true)
        → client_step c i t (t.clients i) ≡ some u
        → Step kills t u

  pub data Reach (kills : Bool) (t : Thread k) : Thread k → Type 0 where
    here : Reach kills t t
    later : {u v : Thread k} → Reach kills t u → Step kills u v → Reach kills t v
