-- ===== src/Mutex/Win32/Instance.antt =====
-- An instance of the interface of src/Mutex.cpp under WIN32: a mutex object is its owner with a
-- depth, and whether it is abandoned.
use ucxx.Base.{
  ℕ, suc, ◌<◌, ◌≡◌, ◌≢◌, refl, Bool, true, false, ◌||◌, ltb, ◌==◌, if◌then◌else◌, Option, none,
  some, arith,
}
use ucxx.Mutex.Win32.{Kernel, WaitResult, object_0, abandoned, timeout}
use ucxx.Posix.{simple_posix}

abbrev pub Owner : Type 0
Owner = Option (ℕ × ℕ)

abbrev pub MutexObject : Type 0
MutexObject = Owner × Bool

abbrev pub object_owned : MutexObject → ℕ → ℕ
object_owned (o, a) j = simple_posix.held o j

abbrev pub entered : MutexObject → Option Owner → WaitResult × MutexObject
entered m none = (timeout, m)
entered (o, a) (some o') = (if a then abandoned else object_0, (o', false))

abbrev pub object_wait : MutexObject → ℕ → WaitResult × MutexObject
object_wait m i = entered m (simple_posix.mutex_lock m.0 i)

abbrev pub object_release : MutexObject → ℕ → MutexObject
object_release (o, a) i = (simple_posix.mutex_unlock o i, a)

abbrev pub object_terminate : MutexObject → ℕ → MutexObject
object_terminate (o, a) i =
    (if ltb 0 (simple_posix.held o i) then none else o, a || ltb 0 (simple_posix.held o i))

pub object_wait-blocks :
    (m : MutexObject) (i j : ℕ) → i ≢ j → 0 < object_owned m j → object_wait m i ≡ (timeout, m)
object_wait-blocks (o, a) i j ne h = rw (simple_posix.lock-blocks o i j ne h) refl

pub object_wait-enters :
    (m : MutexObject) (i : ℕ)
    → ((j : ℕ) → i ≢ j → object_owned m j ≡ 0)
    → (m' : MutexObject) × (object_wait m i ≡ (if m.1 then abandoned else object_0, m'))
      × (m'.1 ≡ false)
      × ((j : ℕ)
          → object_owned m' j ≡ (if i == j then suc (object_owned m j) else object_owned m j))
object_wait-enters (o, a) i alone =
    let (o', e) = simple_posix.lock-enters o i alone in
    ((o', false), rw e refl, refl, λ j. simple_posix.held-lock o o' i j e)

pub timeout_unchanged :
    (m : MutexObject) (o' : Option Owner) (m' : MutexObject) → entered m o' ≡ (timeout, m') → m' ≡ m
timeout_unchanged m none m' h = cc h
timeout_unchanged (o, true) (some o') m' h = absurd (cc h)
timeout_unchanged (o, false) (some o') m' h = absurd (cc h)

pub object_wait_unchanged : (m m' : MutexObject) (i : ℕ) → object_wait m i ≡ (timeout, m') → m' ≡ m
object_wait_unchanged m m' i h = timeout_unchanged m (simple_posix.mutex_lock m.0 i) m' h

pub object_owned-terminate :
    (m : MutexObject) (i j : ℕ)
    → object_owned (object_terminate m i) j ≡ (if i == j then 0 else object_owned m j)
object_owned-terminate (none, a) i j = ground arith
object_owned-terminate (some (l, n), a) i j = ground arith

abbrev pub simple_kernel : Kernel
simple_kernel = record {
  HandleState = MutexObject;
  owned = object_owned;
  is_abandoned = λ m. m.1;
  create_mutex = (none, false);
  wait_for_single_object = object_wait;
  release_mutex = object_release;
  terminate_thread = object_terminate;
  owned-create = λ _. refl;
  abandoned-create = refl;
  wait-blocks = object_wait-blocks;
  wait-enters = object_wait-enters;
  wait_unchanged = object_wait_unchanged;
  owned-release = λ m. simple_posix.held-unlock m.0;
  abandoned-release = λ _ _ _. refl;
  owned-terminate = object_owned-terminate;
  abandoned-terminate = λ _ _. refl;
}
