-- ===== src/Sema/Win32/Tests.antt =====
-- Runs of the WIN32 semaphore of src/Sema.cpp, and the law on them.
use ucxx.Base.{
  ℕ, zero, suc, ◌+◌, ◌<◌, ◌%◌, ◌^◌, ◌≡◌, refl, Option, none, some, List, [], ◌∷◌, Option-cases, inl,
  inr, arith,
}
use ucxx.Base.Threads.{total}
use ucxx.Mutex
use ucxx.Posix.{simple_posix}
use ucxx.Sema.Win32.{
  wait_next, value_next, notify_next, Kernel, Semaphore, Choice, wait, notify, go, outside, create,
  locking, unlocking, next, Reach, here, later,
}
use ucxx.Sema.Win32.Drift.{count-stale}

abbrev take_permit : ℕ → Option ℕ
take_permit zero = none
take_permit (suc n) = some n

simple_permits-wait : (s t : ℕ) → take_permit s ≡ some t → s ≡ suc t
simple_permits-wait zero t e = absurd (cc e)
simple_permits-wait (suc n) t e = ground arith

abbrev released : ℕ → ℕ → Option (ℕ × ℕ)
released s increment = some (s + increment, s)

simple_permits-release :
    (s t increment previous : ℕ)
    → released s increment ≡ some (t, previous)
    → (previous ≡ s) × (t ≡ s + increment)
simple_permits-release s t increment previous e = (ground arith, ground arith)

abbrev simple_kernel : Kernel
simple_kernel = record {
  SemState = ℕ;
  permits = λ s. s;
  create_semaphore = λ n. n;
  wait_for_single_object = take_permit;
  release_semaphore = released;
  permits-create = λ n. refl;
  permits-wait = simple_permits-wait;
  permits-release = λ s t increment previous e. simple_permits-release s t increment previous e;
}

running : ℕ
unfolding total wait_next value_next notify_next next create locking unlocking Mutex.create
    Mutex.lock Mutex.unlock
running = 0

abbrev State : Type 0
State = Semaphore simple_kernel simple_posix

-- There are two threads.
data Thread : Type 0 where
  left right : Thread

abbrev number : Thread → ℕ
number left = 0
number right = 1

number-lt : (x : Thread) → number x < 2
number-lt left = omega arith
number-lt right = omega arith

abbrev step : Thread → Choice → State → Option State
step x c s = next simple_kernel simple_posix 2 c (number x) s (s.pcs (number x))

-- The steps one after the other; one that blocks is left out.
unfoldable after : List (Thread × Choice) → State → State
after [] s = s
after ((x, c) ∷ rest) s = elim (step x c s) [ none ↦ after rest s | some u ↦ after rest u ]

after-Reach :
    (moves : List (Thread × Choice)) (new s : State)
    → Reach simple_kernel simple_posix 2 new s
    → Reach simple_kernel simple_posix 2 new (after moves s)
unfolding after
after-Reach [] new s way = way
after-Reach ((x, c) ∷ rest) new s way = elim (Option-cases (step x c s)) [
  | inl blocks ↦ rw (blocks, after) (after-Reach rest new s way)
  | inr (u, e) ↦ rw (e, after) (after-Reach rest new u (later c (number x) (number-lt x) way e))
]

abbrev new : State
new = create simple_kernel simple_posix 2 1

-- The left thread takes the only permit; before it counts that, the right one releases another.
abbrev overtaken : List (Thread × Choice)
overtaken =
    (left, wait)
    ∷ (left, go)
    ∷ (right, notify 1)
    ∷ (right, go)
    ∷ (right, go)
    ∷ (right, go)
    ∷ (right, go)
    ∷ (left, go)
    ∷ (left, go)
    ∷ (left, go)
    ∷ (left, go)
    ∷ []

-- One permit is left, and value() returns 0.
runs :
    ((after overtaken new).semaphore ≡ 1)
    × ((after overtaken new).count ≡ 0)
    × ((after overtaken new).stale ≡ 1)
unfolding running after
runs = (refl, refl, refl)

rests : (i : ℕ) → (after overtaken new).pcs i ≡ outside
unfolding running after
rests i = ground arith

count-stale_example : (0 + 1) % 2 ^ 32 ≡ 1 % 2 ^ 32
unfolding running after
count-stale_example =
    (count-stale simple_kernel simple_posix 2 1 (after overtaken new)
        (after-Reach overtaken new new here)).1
      rests
