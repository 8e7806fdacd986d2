-- ===== src/Mutex/Win32/Same.antt =====
-- src/Mutex.cpp: the POSIX and the WIN32 branches side by side, for threads that call them.
use ucxx.Base.{
  ℕ, ◌<◌, ◌≡◌, ◌≢◌, refl, sym, ◌∙◌, Bool, true, false, Option, none, some, List, [], ◌∷◌, inl, inr,
  Option-cases, arith,
}
use mathlib.Core.Path.{ap₂}
use native.Mathlib.Decide.{dec_lt}
use ucxx.Mutex
use ucxx.Mutex.Laws.{lock-free}
use ucxx.Mutex.Win32
use ucxx.Mutex.Win32.{
  Kernel, WaitResult, object_0, abandoned, timeout, LockResult, blocks, asserts, locked,
}
use ucxx.Posix.{Posix}

-- The methods of a Mutex.
pub data Call : Type 0 where
  lock unlock try_lock : Call

-- What the caller sees: lock() blocks, or fails its assertion, or a method returns.
pub data Answer : Type 0 where
  blocked failed : Answer
  returned : Bool → Answer

module _ (p : Posix) where
  abbrev lock_answer : p.MutexState → Option p.MutexState → p.MutexState × Answer
  lock_answer m none = (m, blocked)
  lock_answer m (some m') = (m', returned true)

  abbrev try_answer : p.MutexState × Bool → p.MutexState × Answer
  try_answer (m, b) = (m, returned b)

  unfoldable pub call_posix : p.MutexState → ℕ → Call → p.MutexState × Answer
  call_posix m i lock = lock_answer m (Mutex.lock p m i)
  call_posix m i unlock = (Mutex.unlock p m i, returned true)
  call_posix m i try_lock = try_answer (Mutex.try_lock p m i)

  unfoldable pub answers_posix : p.MutexState → List (ℕ × Call) → List Answer
  answers_posix m [] = []
  answers_posix m ((i, c) ∷ calls) = (call_posix m i c).1 ∷ answers_posix (call_posix m i c).0 calls

  abbrev Allowed : p.MutexState → ℕ → Call → Type 0
  Allowed m i unlock = 0 < p.held m i
  Allowed m i _ = Unit {0}

  -- A thread unlocks only what it has locked.
  unfoldable pub IsPaired : p.MutexState → List (ℕ × Call) → Type 0
  IsPaired m [] = Unit {0}
  IsPaired m ((i, c) ∷ calls) = Allowed m i c × IsPaired (call_posix m i c).0 calls

module _ (k : Kernel) where
  abbrev lock_answer_win32 : k.HandleState → LockResult k → k.HandleState × Answer
  lock_answer_win32 w blocks = (w, blocked)
  lock_answer_win32 w (asserts w') = (w', failed)
  lock_answer_win32 w (locked w') = (w', returned true)

  abbrev try_answer_win32 : k.HandleState × Bool → k.HandleState × Answer
  try_answer_win32 (w, b) = (w, returned b)

  unfoldable pub call_win32 : k.HandleState → ℕ → Call → k.HandleState × Answer
  call_win32 w i lock = lock_answer_win32 w (Win32.lock k w i)
  call_win32 w i unlock = (Win32.unlock k w i, returned true)
  call_win32 w i try_lock = try_answer_win32 (Win32.try_lock k w i)

  unfoldable pub answers_win32 : k.HandleState → List (ℕ × Call) → List Answer
  answers_win32 w [] = []
  answers_win32 w ((i, c) ∷ calls) = (call_win32 w i c).1 ∷ answers_win32 (call_win32 w i c).0 calls

module _ (p : Posix) (k : Kernel) where
  open p use {
    MutexState, held, held-lock, held-unlock, lock-enters, lock-blocks, trylock-lock, mutex_lock,
  }
  open k use {
    HandleState, owned, is_abandoned, wait_for_single_object, wait-blocks, wait-enters,
    wait_unchanged, owned-release, abandoned-release,
  }

  -- Every thread has as many locks of the one as of the other, and no owner has been terminated.
  record Related (m : MutexState) (w : HandleState) : Type 0 where
    owns : (j : ℕ) → owned w j ≡ held m j
    left : is_abandoned w ≡ false

  -- Both are free for the thread, and enter related states, or both are not.
  data Waits (m : MutexState) (w : HandleState) (i : ℕ) : Type 0 where
    both_enter :
        (m' : MutexState) (w' : HandleState)
        → mutex_lock m i ≡ some m'
        → wait_for_single_object w i ≡ (object_0, w')
        → Related m' w'
        → Waits m w i
    both_wait : mutex_lock m i ≡ none → wait_for_single_object w i ≡ (timeout, w) → Waits m w i

  lock-Waits : (m : MutexState) (w : HandleState) (i : ℕ) → Related m w → Waits m w i
  lock-Waits m w i r = elim (Option-cases (mutex_lock m i)) [
    | inr (m', e) ↦
        let others : (j : ℕ) → i ≢ j → owned w j ≡ 0 =
          λ j ne. omega (arith, r.owns j, lock-free p m m' i j ne e) in
        let (w', enters, left, now) = wait-enters w i others in
        both_enter m' w' e (rw (enters, r.left) refl)
          record { owns = λ j. ground (arith, now j, held-lock m m' i j e, r.owns j); left = left }
    | inl e ↦ waits (wait_for_single_object w i) refl e
  ]
    where
      free_of :
          (x : WaitResult × HandleState)
          → wait_for_single_object w i ≡ x
          → x.0 ≢ timeout
          → (j : ℕ) → i ≢ j
          → held m j ≡ 0
      free_of x e comes j ne = elim (dec_lt 0 (held m j)) [
        | yes some_held ↦ absurd (comes (cc (wait-blocks w i j ne (omega (arith, r.owns j)), e)))
        | no none_held ↦ omega arith
      ]

      clash :
          (x : WaitResult × HandleState)
          → wait_for_single_object w i ≡ x
          → x.0 ≢ timeout
          → mutex_lock m i ≡ none
          → Waits m w i
      clash x e comes blocked_here =
          absurd (cc ((lock-enters m i (free_of x e comes)).1, blocked_here))

      waits :
          (x : WaitResult × HandleState)
          → wait_for_single_object w i ≡ x
          → mutex_lock m i ≡ none
          → Waits m w i
      waits (timeout, w') e blocked_here = both_wait blocked_here (cc (e, wait_unchanged w w' i e))
      waits (object_0, w') e blocked_here = clash (object_0, w') e (λ h. absurd (cc h)) blocked_here
      waits (abandoned, w') e blocked_here =
          clash (abandoned, w') e (λ h. absurd (cc h)) blocked_here

  record Agree (x : MutexState × Answer) (y : HandleState × Answer) : Type 0 where
    answer : y.1 ≡ x.1
    states : Related x.0 y.0

  call-Agree :
      (m : MutexState) (w : HandleState) (i : ℕ) (c : Call)
      → Related m w
      → Allowed p m i c
      → Agree (call_posix p m i c) (call_win32 k w i c)
  unfolding call_posix call_win32 Mutex.lock Mutex.unlock Mutex.try_lock Win32.lock Win32.unlock
      Win32.try_lock
  call-Agree m w i lock r allowed = elim (lock-Waits m w i r) [
    | both_enter m' w' e d r' ↦ rw (e, d) record { answer = refl; states = r' }
    | both_wait e d ↦ rw (e, d) record { answer = refl; states = r }
  ]
  call-Agree m w i try_lock r allowed = elim (lock-Waits m w i r) [
    | both_enter m' w' e d r' ↦
        rw (trylock-lock m i, e, Mutex.try_lock, d) record { answer = refl; states = r' }
    | both_wait e d ↦
        rw (trylock-lock m i, e, Mutex.try_lock, d) record { answer = refl; states = r }
  ]
  call-Agree m w i unlock r allowed =
      let own : 0 < owned w i = omega (arith, r.owns i) in
      record {
        answer = refl;
        states = record {
          owns = λ j. ground (arith, owned-release w i j own, held-unlock m i j allowed, r.owns j);
          left = cc (abandoned-release w i own, r.left);
        };
      }

  answers-IsPaired :
      (m : MutexState) (w : HandleState) (calls : List (ℕ × Call))
      → Related m w
      → IsPaired p m calls
      → answers_win32 k w calls ≡ answers_posix p m calls
  unfolding answers_win32 answers_posix IsPaired
  answers-IsPaired m w [] r paired = refl
  answers-IsPaired m w ((i, c) ∷ calls) r paired =
      let agree = call-Agree m w i c r paired.0 in
      ap₂ ◌∷◌ agree.answer
        (answers-IsPaired (call_posix p m i c).0 (call_win32 k w i c).0 calls agree.states paired.1)

  -- Whatever threads call lock(), unlock() and tryLock() of a new mutex, and in whatever order, as
  -- long as a thread unlocks only what it has locked, and none that owns the mutex is terminated:
  -- the mutex of POSIX and that of WIN32 answer alike, call by call.
  pub answers-same :
      (calls : List (ℕ × Call))
      → IsPaired p (Mutex.create p) calls
      → answers_win32 k (Win32.create k) calls ≡ answers_posix p (Mutex.create p) calls
  unfolding Win32.create Mutex.create
  answers-same calls paired =
      answers-IsPaired (Mutex.create p) (Win32.create k) calls
        record { owns = λ j. k.owned-create j ∙ sym (p.held-init j); left = k.abandoned-create }
        paired
