-- ===== src/Sema/Unix.antt =====
-- src/Sema.cpp with POSIX semaphores (neither WIN32 nor __APPLE__).
use ucxx.Base.{
  ℕ, zero, suc, ◌+◌, ◌≡◌, refl, Bool, true, false, List, [], ◌∷◌, arith, ◌==◌, if◌then◌else◌,
}
use ucxx.Base.Int.{ℤ, pos, negsuc}
use ucxx.Posix.{Posix}

-- How a call of sem_wait or sem_timedwait comes back: with 0, or with -1 and an errno.
pub data Call : Type 0 where
  acquired interrupted timed_out failed : Call

-- How Semaphore::wait ends; `aborted` is the failed assertion. `waiting`: no call that has come
-- back has ended it.
pub data Wait : Type 0 where
  returned : Bool → Wait
  aborted waiting : Wait

abbrev is_acquired : Call → Bool
is_acquired acquired = true
is_acquired _ = false

-- The loop that restarts sem_timedwait, and the tests behind it, over the calls in their order.
unfoldable pub timed_loop : List Call → Wait
timed_loop [] = waiting
timed_loop (acquired ∷ calls) = returned true
timed_loop (interrupted ∷ calls) = timed_loop calls
timed_loop (timed_out ∷ calls) = returned false
timed_loop (failed ∷ calls) = aborted

unfoldable pub untimed : List Call → Wait
untimed [] = waiting
untimed (call ∷ calls) = returned (is_acquired call)

unfoldable pub wait : ℕ → List Call → Wait
wait milliseconds calls = if milliseconds == 0 then untimed calls else timed_loop calls

abbrev pub interruptions : ℕ → List Call → List Call
interruptions zero calls = calls
interruptions (suc n) calls = interrupted ∷ interruptions n calls

-- Signals that interrupt a timed wait do not end it: it goes on to the first call that comes back
-- otherwise. An untimed wait that is interrupted returns false.
pub wait_interrupted :
    (milliseconds n : ℕ) (calls : List Call)
    → wait milliseconds (interruptions (suc n) calls)
      ≡ (if milliseconds == 0 then returned false else wait milliseconds calls)
unfolding wait untimed timed_loop
wait_interrupted milliseconds n calls = ground (arith, loop n calls)
  where
    loop : (n : ℕ) (calls : List Call) → timed_loop (interruptions n calls) ≡ timed_loop calls
    loop zero calls = refl
    loop (suc n) calls = loop n calls

module _ (p : Posix) where
  open p use {SemState, sem_init, sem_post, sem_getvalue, getvalue-init, getvalue-post}

  -- Semaphore(int value): `value` becomes an unsigned.
  unfoldable pub create : ℕ → SemState
  create value = sem_init value

  unfoldable pub value : SemState → ℕ
  value s = sem_getvalue s

  unfoldable pub post_loop : ℕ → SemState → SemState
  post_loop zero s = s
  post_loop (suc n) s = post_loop n (sem_post s)

  -- The loop makes no round for a negative increment.
  unfoldable pub notify : SemState → ℤ → SemState
  notify s (pos increment) = post_loop increment s
  notify s (negsuc n) = s

  value-post_loop : (n : ℕ) (s : SemState) → sem_getvalue (post_loop n s) ≡ sem_getvalue s + n
  unfolding post_loop
  value-post_loop zero s = omega arith
  value-post_loop (suc n) s = omega (arith, value-post_loop n (sem_post s), getvalue-post s)

  -- notify adds a positive increment to the counter of a semaphore, also of a new one, and a
  -- negative increment nothing.
  pub value-notify :
      (n m k : ℕ)
      → (value (notify (notify (create n) (pos m)) (pos k)) ≡ n + m + k)
        × (value (notify (create n) (negsuc k)) ≡ n)
  unfolding value notify create
  value-notify n m k = (
    omega (
      arith,
      value-post_loop k (post_loop m (sem_init n)),
      value-post_loop m (sem_init n),
      getvalue-init n,
    ),
    getvalue-init n,
  )
