-- ===== src/Mutex/Win32/Laws.antt =====
-- src/Mutex.cpp under WIN32: lock() of a mutex that is not abandoned.
use ucxx.Base.{ℕ, suc, ◌≡◌, ◌≢◌, refl, false, ◌==◌, if◌then◌else◌, arith}
use native.Mathlib.Decide.{dec_lt}
use ucxx.Mutex.Win32.{Kernel, WaitResult, object_0, abandoned, timeout, blocks, locked, lock}

module _ (k : Kernel) where
  open k use {HandleState, owned, is_abandoned, wait_for_single_object, wait-blocks, wait-enters}

  -- A thread that waits for the mutex does not find it abandoned: it goes on waiting, or has the
  -- mutex alone.
  pub data Outcome (m : HandleState) (i : ℕ) : Type 0 where
    waits : lock k m i ≡ blocks → Outcome m i
    enters :
        (m' : HandleState)
        → lock k m i ≡ locked m'
        → is_abandoned m' ≡ false
        → ((j : ℕ) → owned m' j ≡ (if i == j then suc (owned m j) else owned m j))
        → ((j : ℕ) → i ≢ j → owned m j ≡ 0)
        → Outcome m i

  -- What does not time out finds nobody else in the mutex.
  pub wait-free :
      (m : HandleState) (i j : ℕ) (x : WaitResult × HandleState)
      → i ≢ j
      → wait_for_single_object m i ≡ x
      → x.0 ≢ timeout
      → owned m j ≡ 0
  wait-free m i j x ne e comes = elim (dec_lt 0 (owned m j)) [
    | yes some_owned ↦ absurd (comes (cc (wait-blocks m i j ne some_owned, e)))
    | no none_owned ↦ omega arith
  ]

  pub lock-Outcome : (m : HandleState) (i : ℕ) → is_abandoned m ≡ false → Outcome m i
  unfolding lock
  lock-Outcome m i left = by_result (wait_for_single_object m i) refl
    where
      entered :
          (x : WaitResult × HandleState)
          → wait_for_single_object m i ≡ x
          → x.0 ≢ timeout
          → Outcome m i
      entered x e comes =
          let alone : (j : ℕ) → i ≢ j → owned m j ≡ 0 = λ j ne. wait-free m i j x ne e comes in
          let (m', comes_back, unmarked, now) = wait-enters m i alone in
          enters m' (rw (comes_back, left) refl) unmarked now alone

      by_result : (x : WaitResult × HandleState) → wait_for_single_object m i ≡ x → Outcome m i
      by_result (timeout, m') e = waits (rw e refl)
      by_result (object_0, m') e = entered (object_0, m') e (λ h. absurd (cc h))
      by_result (abandoned, m') e = entered (abandoned, m') e (λ h. absurd (cc h))
