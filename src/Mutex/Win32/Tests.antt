-- ===== src/Mutex/Win32/Tests.antt =====
-- Runs of src/Mutex.cpp under WIN32.
use ucxx.Base.{ℕ, ◌≡◌, refl, true, false, some, List, [], ◌∷◌, arith}
use ucxx.Mutex
use ucxx.Mutex.Win32
use ucxx.Mutex.Win32.{
  Kernel, WaitResult, object_0, abandoned, timeout, LockResult, blocks, asserts, locked,
}
use ucxx.Mutex.Win32.Abandoned.{try_lock-terminated}
use ucxx.Mutex.Win32.Same.{
  Call, lock, unlock, try_lock, blocked, returned, call_posix, answers_posix, call_win32, IsPaired,
  answers_win32, answers-same,
}
use ucxx.Mutex.Win32.Instance.{MutexObject, object_owned, simple_kernel}
use ucxx.Posix.{simple_posix}

running : ℕ
unfolding call_posix call_win32 answers_posix answers_win32 IsPaired Mutex.create Mutex.lock
    Mutex.unlock Mutex.try_lock Win32.create Win32.lock Win32.unlock Win32.try_lock
running = 0

-- Thread 1 locks twice and unlocks twice, and thread 2 tries in between.
abbrev calls : List (ℕ × Call)
calls =
    (1, lock)
    ∷ (1, try_lock)
    ∷ (2, lock)
    ∷ (1, unlock)
    ∷ (2, try_lock)
    ∷ (1, unlock)
    ∷ (2, try_lock)
    ∷ []

answers_runs :
    answers_win32 simple_kernel (Win32.create simple_kernel) calls
    ≡ returned true
      ∷ returned true
      ∷ blocked
      ∷ returned true
      ∷ returned false
      ∷ returned true
      ∷ returned true
      ∷ []
unfolding running
answers_runs = refl

answers-same_example :
    answers_win32 simple_kernel (Win32.create simple_kernel) calls
    ≡ answers_posix simple_posix (Mutex.create simple_posix) calls
unfolding running
answers-same_example = answers-same simple_posix simple_kernel calls (omega arith)

try_lock-terminated_example :
    (m' : MutexObject) × (Win32.try_lock simple_kernel
        (simple_kernel.terminate_thread (some (1, 0), false) 1)
        2
      ≡ (m', false))
    × (Win32.lock simple_kernel (simple_kernel.terminate_thread (some (1, 0), false) 1) 2
        ≡ asserts m')
    × (object_owned m' 2 ≡ 1)
    × (Win32.try_lock simple_kernel m' 3 ≡ (m', false))
    × (Win32.lock simple_kernel m' 3 ≡ blocks)
    × ((h : ℕ) → object_owned (Win32.unlock simple_kernel m' 2) h ≡ 0)
try_lock-terminated_example =
    try_lock-terminated simple_kernel (some (1, 0), false) 1 2 3 (omega arith)
      (λ h ne. ground (arith, ne)) (omega arith) (omega arith)
