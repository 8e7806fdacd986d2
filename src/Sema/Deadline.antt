-- ===== src/Sema/Deadline.antt =====
-- The absolute times that src/Sema.cpp and src/Thread.cpp compute from a timeout in milliseconds.
use ucxx.Base.{
  ℕ, ◌+◌, ◌*◌, ◌/◌, ◌%◌, ◌^◌, ◌<◌, ◌≤◌, ◌≡◌, refl, ◌∙◌, Option, none, some, ltb, lt→ltb, if◌then◌else◌, arith,
}

pub record Timespec : Type 0 where
  pub tv_sec : ℕ
  pub tv_nsec : ℕ

abbrev pub nanoseconds : Timespec → ℕ
nanoseconds ts = ts.tv_sec * 1000000000 + ts.tv_nsec

-- The last two lines of each computation. time_t and long are of 64 bits, and a signed sum that they
-- do not hold is undefined behaviour, `none`; so in what follows.
unfoldable pub carry : ℕ → ℕ → Option Timespec
carry sec nsec =
    if ltb (sec + nsec / 1000000000) (2 ^ 63)
    then some (record { tv_sec = sec + nsec / 1000000000; tv_nsec = nsec % 1000000000 })
    else none

-- Semaphore::wait and Thread::sleep after clock_gettime. `(milliseconds % 1000) * 1000000` is an
-- unsigned of 32 bits, and the sum with it is a long.
unfoldable pub unix_deadline : Timespec → ℕ → Option Timespec
unix_deadline now milliseconds =
    let sec = now.tv_sec + milliseconds / 1000 in
    let nsec = now.tv_nsec + milliseconds % 1000 * 1000000 % 2 ^ 32 in
    if ltb sec (2 ^ 63) then if ltb nsec (2 ^ 63) then carry sec nsec else none else none

-- The __APPLE__ branches begin with gettimeofday, in microseconds. There tv_usec is an int, so that
-- `tv.tv_usec * 1000` is an int, and its sum with an unsigned is an unsigned of 32 bits.
pub record Timeval : Type 0 where
  pub tv_sec : ℕ
  pub tv_usec : ℕ

-- What both functions do; `unit` is what they take the rest of the milliseconds times.
unfoldable pub apple_deadline : ℕ → Timeval → ℕ → Option Timespec
apple_deadline unit now milliseconds =
    let sec = now.tv_sec + milliseconds / 1000 in
    let usec = now.tv_usec * 1000 in
    if ltb sec (2 ^ 63)
    then
      if ltb usec (2 ^ 31)
      then carry sec ((usec + milliseconds % 1000 * unit % 2 ^ 32) % 2 ^ 32)
      else none
    else none

-- Semaphore::wait
unfoldable pub apple_wait_deadline : Timeval → ℕ → Option Timespec
apple_wait_deadline = apple_deadline 1000

-- Thread::sleep
unfoldable pub apple_sleep_deadline : Timeval → ℕ → Option Timespec
apple_sleep_deadline = apple_deadline 1000000

abbrev pub of_timeval : Timeval → Timespec
of_timeval tv = record { tv_sec = tv.tv_sec; tv_nsec = tv.tv_usec * 1000 }

carry_defined :
    (sec nsec : ℕ)
    → sec + nsec / 1000000000 < 2 ^ 63
    → carry sec nsec
      ≡ some (record { tv_sec = sec + nsec / 1000000000; tv_nsec = nsec % 1000000000 })
unfolding carry
carry_defined sec nsec small = rw (lt→ltb (sec + nsec / 1000000000) (2 ^ 63) small) refl

-- The deadline `d` is defined, lies `delay` nanoseconds after `now`, and is normalised.
abbrev pub LiesAfter : ℕ → ℕ → Option Timespec → Type 0
LiesAfter now delay d =
    (ts : Timespec) × (d ≡ some ts) × (nanoseconds ts ≡ now + delay) × (ts.tv_nsec < 1000000000)

unix_deadline-carry :
    (now : Timespec) (milliseconds : ℕ)
    → now.tv_sec < 2 ^ 62
    → now.tv_nsec < 1000000000
    → milliseconds < 2 ^ 32
    → unix_deadline now milliseconds
      ≡ carry (now.tv_sec + milliseconds / 1000) (now.tv_nsec + milliseconds % 1000 * 1000000)
unfolding unix_deadline
unix_deadline-carry now milliseconds sec nsec word =
    let rest = now.tv_nsec + milliseconds % 1000 * 1000000 in
    let fits : now.tv_nsec + milliseconds % 1000 * 1000000 % 2 ^ 32 ≡ rest = omega arith in
    rw
      (
        lt→ltb (now.tv_sec + milliseconds / 1000) (2 ^ 63) (omega arith),
        fits,
        lt→ltb rest (2 ^ 63) (omega arith),
      )
      refl

-- The seconds and the nanoseconds of a Darwin deadline, where nothing wraps.
apple_deadline-carry :
    (unit : ℕ) (tv : Timeval) (milliseconds : ℕ)
    → milliseconds % 1000 * unit < 1000000000
    → tv.tv_sec < 2 ^ 62
    → tv.tv_usec < 1000000
    → milliseconds < 2 ^ 32
    → apple_deadline unit tv milliseconds
      ≡ carry (tv.tv_sec + milliseconds / 1000) (tv.tv_usec * 1000 + milliseconds % 1000 * unit)
unfolding apple_deadline
apple_deadline-carry unit tv milliseconds small sec usec word =
    let part = milliseconds % 1000 * unit in
    let fits : (tv.tv_usec * 1000 + part % 2 ^ 32) % 2 ^ 32 ≡ tv.tv_usec * 1000 + part =
      omega arith in
    rw
      (
        lt→ltb (tv.tv_sec + milliseconds / 1000) (2 ^ 63) (omega arith),
        lt→ltb (tv.tv_usec * 1000) (2 ^ 31) (omega arith),
        fits,
      )
      refl

-- The deadline of a timed wait under Linux, and that of a sleep on either platform, lies the
-- timeout after the present, to the nanosecond, and is normalised; nothing wraps around, if the
-- present is what the system's calls return: less than 10^9 nanoseconds or 10^6 microseconds beyond
-- a number of seconds below 2^62. The timeout is a word of 32 bits.
pub deadline_exact :
    (now : Timespec) (tv : Timeval) (milliseconds : ℕ)
    → now.tv_sec < 2 ^ 62
    → now.tv_nsec < 1000000000
    → tv.tv_sec < 2 ^ 62
    → tv.tv_usec < 1000000
    → milliseconds < 2 ^ 32
    → LiesAfter (nanoseconds now) (milliseconds * 1000000) (unix_deadline now milliseconds)
      × LiesAfter (nanoseconds (of_timeval tv)) (milliseconds * 1000000)
        (apple_sleep_deadline tv milliseconds)
unfolding apple_sleep_deadline
deadline_exact now tv milliseconds sec nsec sec' usec word =
    (
      (
        _,
        unix_deadline-carry now milliseconds sec nsec word
          ∙ carry_defined (now.tv_sec + milliseconds / 1000)
            (now.tv_nsec + milliseconds % 1000 * 1000000) (omega arith),
        omega arith,
        omega arith,
      ),
      (
        _,
        apple_deadline-carry 1000000 tv milliseconds (omega arith) sec' usec word
          ∙ carry_defined (tv.tv_sec + milliseconds / 1000)
            (tv.tv_usec * 1000 + milliseconds % 1000 * 1000000) (omega arith),
        omega arith,
        omega arith,
      ),
    )

-- The deadline of a timed wait under __APPLE__ is normalised, but the milliseconds beyond the last
-- whole second are added as microseconds: each of them makes it 999 microseconds too early. The
-- present is less than 10^6 microseconds beyond a number of seconds below 2^62, and the timeout is a
-- word of 32 bits.
pub apple_wait_early :
    (tv : Timeval) (milliseconds : ℕ)
    → tv.tv_sec < 2 ^ 62
    → tv.tv_usec < 1000000
    → milliseconds < 2 ^ 32
    → (ts : Timespec) × (apple_wait_deadline tv milliseconds ≡ some ts)
      × (nanoseconds ts + milliseconds % 1000 * 999000
          ≡ nanoseconds (of_timeval tv) + milliseconds * 1000000)
      × (ts.tv_nsec < 1000000000)
unfolding apple_wait_deadline
apple_wait_early tv milliseconds sec usec word =
    (
      _,
      apple_deadline-carry 1000 tv milliseconds (omega arith) sec usec word
        ∙ carry_defined (tv.tv_sec + milliseconds / 1000)
          (tv.tv_usec * 1000 + milliseconds % 1000 * 1000) (omega arith),
      omega arith,
      omega arith,
    )
