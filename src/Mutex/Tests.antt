-- ===== src/Mutex/Tests.antt =====
-- Runs of src/Mutex.cpp over the instance of the POSIX interface, and its laws there.
use ucxx.Base.{◌≡◌, refl, none, some, false}
use ucxx.Posix.{simple_posix}
use ucxx.Mutex.{create, lock, unlock, try_lock, locker_construct}

runs :
    (lock simple_posix (create simple_posix) 3 ≡ some (some (3, 0)))
    × (lock simple_posix (some (3, 0)) 3 ≡ some (some (3, 1)))
    × (lock simple_posix (some (3, 0)) 4 ≡ none)
    × (try_lock simple_posix (some (3, 0)) 4 ≡ (some (3, 0), false))
    × (unlock simple_posix (some (3, 0)) 3 ≡ none)
    × (locker_construct simple_posix none 3 ≡ some none)
unfolding create lock unlock try_lock locker_construct
runs = (refl, refl, refl, refl, refl, refl)

open simple_posix use {MutexState, held}
