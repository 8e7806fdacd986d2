-- ===== src/Sema/Apple.antt =====
-- src/Sema.cpp under __APPLE__: a counter with a mutex of its own, and a condition for the threads
-- that have found it zero, with the calls of any number of threads step by step. m_count starts out
-- as no negative number, and stays below INT_MAX. The deadline of a timed wait is in Sema/Deadline.
pub mod Invariant
pub mod Sections
pub mod Balance
pub mod Refinement
pub mod Sleep
pub mod Permits
mod Tests
use ucxx.Base.{
  ℕ, zero, suc, ◌-◌, ◌<◌, ◌≡◌, Bool, true, false, Option, none, some, if◌then◌else◌, ◌==◌,
}
use ucxx.Base.Threads.{update}
use ucxx.Posix.{Posix}

-- The critical sections of m_countMutex: the first test of wait (timed or not), the test behind its
-- sleep, a round of notify with the rounds that are left, and value().
pub data Access : Type 0 where
  first : Bool → Access
  again reads : Access
  adds : ℕ → Access

-- Where a thread is. `timed`: milliseconds is not 0. `stores access c`: it has loaded c from
-- m_count. `unlocks access took`: behind the section. `woken ok`: ok is cres == 0, and the
-- condition's mutex is still to be locked again.
pub data Pc : Type 0 where
  outside : Pc
  locks tests loads : Access → Pc
  stores : Access → ℕ → Pc
  unlocks : Access → Bool → Pc
  sleep_locks sleep_enters sleeping : Bool → Pc
  woken sleep_unlocks : Bool → Pc
  signals : ℕ → Pc
  returned : Bool → Pc

-- A Semaphore and the threads that use it. The last two are no members: the increments and the
-- decrements that m_count has had.
pub record Semaphore (p : Posix) : Type 0 where
  pub count_mutex : p.MutexState
  pub wait_mutex : p.MutexState
  pub count : ℕ
  pub pcs : ℕ → Pc
  pub given : ℕ
  pub taken : ℕ

-- A call of a method, or the next step of the method that is called.
pub data Choice : Type 0 where
  wait : Bool → Choice
  notify : ℕ → Choice
  read_value go : Choice

-- The first statement in the section.
abbrev pub enters : Access → Pc
enters (first timed) = tests (first timed)
enters again = tests again
enters reads = loads reads
enters (adds n) = loads (adds n)

-- The loop of notify, with `n` rounds left.
abbrev pub round : ℕ → Pc
round zero = outside
round (suc n) = locks (adds n)

-- What follows a section.
abbrev pub leaves : Access → Bool → Pc
leaves (first timed) true = returned true
leaves (first timed) false = sleep_locks timed
leaves again took = returned took
leaves reads took = outside
leaves (adds n) took = signals n

module _ (p : Posix) where
  -- Semaphore(int value)
  unfoldable pub create : ℕ → Semaphore p
  create value = record {
    count_mutex = p.mutex_init;
    wait_mutex = p.mutex_init;
    count = value;
    pcs = λ _. outside;
    given = 0;
    taken = 0;
  }

  abbrev pub moves : Semaphore p → ℕ → Pc → Semaphore p
  moves s i pc = record s { pcs = update s.pcs i pc }

  -- m_count-- and m_count++ behind their load.
  unfoldable pub store : ℕ → Semaphore p → Access → ℕ → Semaphore p
  store i s (adds n) c = record (moves s i (unlocks (adds n) true)) {
    count = suc c;
    given = suc s.given;
  }
  store i s (first timed) c = record (moves s i (unlocks (first timed) true)) {
    count = c - 1;
    taken = suc s.taken;
  }
  store i s again c = record (moves s i (unlocks again true)) { count = c - 1; taken = suc s.taken }
  store i s reads c = moves s i (unlocks reads true)

  -- A step of thread `i` in wait, value or notify but for what the condition does; `none`: the step
  -- blocks, or there is none.
  unfoldable pub next : Choice → ℕ → Semaphore p → Pc → Option (Semaphore p)
  next (wait timed) i s outside = some (moves s i (locks (first timed)))
  next (notify increment) i s outside = some (moves s i (round increment))
  next read_value i s outside = some (moves s i (locks reads))
  next go i s (locks access) = elim (p.mutex_lock s.count_mutex i) [
    | none ↦ none
    | some m ↦ some (record (moves s i (enters access)) { count_mutex = m })
  ]
  next go i s (tests access) =
      some (moves s i (if s.count == 0 then unlocks access false else loads access))
  next go i s (loads access) = some (moves s i (stores access s.count))
  next go i s (stores access c) = some (store i s access c)
  next go i s (unlocks access took) =
      some
        (record (moves s i (leaves access took)) { count_mutex = p.mutex_unlock s.count_mutex i })
  next go i s (sleep_locks timed) = elim (p.mutex_lock s.wait_mutex i) [
    | none ↦ none
    | some m ↦ some (record (moves s i (sleep_enters timed)) { wait_mutex = m })
  ]
  next go i s (sleep_enters timed) =
      some (record (moves s i (sleeping timed)) { wait_mutex = p.mutex_unlock s.wait_mutex i })
  next go i s (woken ok) = elim (p.mutex_lock s.wait_mutex i) [
    | none ↦ none
    | some m ↦ some (record (moves s i (sleep_unlocks ok)) { wait_mutex = m })
  ]
  next go i s (sleep_unlocks ok) =
      some (record (moves s i (if ok then locks again else returned false)) {
        wait_mutex = p.mutex_unlock s.wait_mutex i;
      })
  next go i s (returned result) = some (moves s i outside)
  next _ i s _ = none

  -- pthread_cond_signal wakes a thread that sleeps, and does nothing when none does. A timed sleep
  -- may come to its end, and any sleep where the condition wakes without a signal. `calls`: whether
  -- notify may be called.
  pub data Step (spurious calls : Bool) (s : Semaphore p) : Semaphore p → Type 0 where
    steps :
        (c : Choice) (i : ℕ) {u : Semaphore p}
        → ((n : ℕ) → c ≡ notify n → calls ≡ true)
        → next c i s (s.pcs i) ≡ some u
        → Step spurious calls s u
    wakes :
        (i j n : ℕ) (timed : Bool)
        → s.pcs i ≡ signals n
        → s.pcs j ≡ sleeping timed
        → Step spurious calls s (moves (moves s j (woken true)) i (round n))
    wakes_nobody :
        (i n : ℕ)
        → s.pcs i ≡ signals n
        → ((j : ℕ) (timed : Bool) → s.pcs j ≡ sleeping timed → ⊥)
        → Step spurious calls s (moves s i (round n))
    times_out : (i : ℕ) → s.pcs i ≡ sleeping true → Step spurious calls s (moves s i (woken false))
    wakes_spuriously :
        (i : ℕ) (timed : Bool)
        → spurious ≡ true
        → s.pcs i ≡ sleeping timed
        → Step spurious calls s (moves s i (woken true))

  pub data Reach (spurious calls : Bool) (s : Semaphore p) : Semaphore p → Type 0 where
    here : Reach spurious calls s s
    later :
        {t u : Semaphore p}
        → Reach spurious calls s t
        → Step spurious calls t u
        → Reach spurious calls s u
