-- ===== src/Sema/Tests.antt =====
-- Runs of src/Sema.cpp, and its laws on them.
use ucxx.Base.{◌+◌, ◌*◌, ◌%◌, ◌<◌, ◌≡◌, refl, false, true, some, arith, [], ◌∷◌}
use ucxx.Base.Int.{pos}
use ucxx.Posix.{simple_posix}
use ucxx.Sema.Deadline.{
  Timespec, Timeval, nanoseconds, of_timeval, unix_deadline, apple_wait_deadline,
  apple_sleep_deadline, carry, apple_deadline, LiesAfter, deadline_exact, apple_wait_early,
}
use ucxx.Sema.Unix.{
  acquired, interrupted, timed_out, failed, returned, aborted, waiting, timed_loop, untimed, wait,
  create, value, post_loop, notify,
}

abbrev now : Timespec
now = record { tv_sec = 10; tv_nsec = 999000000 }

abbrev now_tv : Timeval
now_tv = record { tv_sec = 10; tv_usec = 999000 }

runs :
    (unix_deadline now 1500 ≡ some (record { tv_sec = 12; tv_nsec = 499000000 }))
    × (apple_wait_deadline now_tv 1500 ≡ some (record { tv_sec = 11; tv_nsec = 999500000 }))
    × (apple_sleep_deadline now_tv 1500 ≡ some (record { tv_sec = 12; tv_nsec = 499000000 }))
    × (wait 5 (interrupted ∷ interrupted ∷ timed_out ∷ []) ≡ returned false)
    × (wait 5 (interrupted ∷ acquired ∷ []) ≡ returned true)
    × (wait 5 (failed ∷ []) ≡ aborted)
    × (wait 5 (interrupted ∷ []) ≡ waiting)
    × (wait 0 (interrupted ∷ acquired ∷ []) ≡ returned false)
    × (wait 0 (acquired ∷ []) ≡ returned true)
    × (value simple_posix (notify simple_posix (create simple_posix 2) (pos 3)) ≡ 5)
unfolding carry apple_deadline unix_deadline apple_wait_deadline apple_sleep_deadline wait untimed timed_loop create
    value notify post_loop
runs = (refl, refl, refl, refl, refl, refl, refl, refl, refl, refl)

deadline_exact_example :
    LiesAfter (nanoseconds now) (1500 * 1000000) (unix_deadline now 1500)
    × LiesAfter (nanoseconds (of_timeval now_tv)) (1500 * 1000000) (apple_sleep_deadline now_tv 1500)
deadline_exact_example =
    deadline_exact now now_tv 1500 (omega arith) (omega arith) (omega arith) (omega arith)
      (omega arith)

apple_wait_early_example :
    (ts : Timespec) × (apple_wait_deadline now_tv 1500 ≡ some ts)
      × (nanoseconds ts + 1500 % 1000 * 999000
          ≡ nanoseconds (of_timeval now_tv) + 1500 * 1000000)
      × (ts.tv_nsec < 1000000000)
apple_wait_early_example = apple_wait_early now_tv 1500 (omega arith) (omega arith) (omega arith)
