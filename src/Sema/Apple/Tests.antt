-- ===== src/Sema/Apple/Tests.antt =====
-- Runs of the __APPLE__ semaphore of src/Sema.cpp, and the laws on them.
use ucxx.Base.{
  ℕ, zero, suc, ◌≡◌, ◌+◌, refl, Bool, true, false, none, some, List, [], ◌∷◌, inl, inr, arith,
  Option-cases,
}
use ucxx.Posix.{simple_posix}
use ucxx.Sema.Apple.{
  Pc, outside, sleeping, signals, Semaphore, Choice, wait, notify, go, create, moves, store, next,
  Step, steps, wakes_nobody, Reach, here, later,
}
use ucxx.Sema.Apple.Balance.{count-balance}

running : ℕ
unfolding next create store
running = 0

-- The steps one after the other; one that blocks is left out.
unfoldable after : List (ℕ × Choice) → Semaphore simple_posix → Semaphore simple_posix
after [] s = s
after ((i, c) ∷ rest) s = elim (next simple_posix c i s (s.pcs i)) [
  | none ↦ after rest s
  | some u ↦ after rest u
]

prepend :
    {calls : Bool} {s t u : Semaphore simple_posix}
    → Step simple_posix false calls s t
    → Reach simple_posix false calls t u
    → Reach simple_posix false calls s u
prepend step here = later here step
prepend step (later way last) = later (prepend step way) last

append :
    {calls : Bool} {s t u : Semaphore simple_posix}
    → Reach simple_posix false calls s t
    → Reach simple_posix false calls t u
    → Reach simple_posix false calls s u
append way here = way
append way (later rest last) = later (append way rest) last

after-Reach :
    (moves : List (ℕ × Choice)) (s : Semaphore simple_posix)
    → Reach simple_posix false true s (after moves s)
unfolding after
after-Reach [] s = here
after-Reach ((i, c) ∷ rest) s = elim (Option-cases (next simple_posix c i s (s.pcs i))) [
  | inl blocks ↦ rw (blocks, after) (after-Reach rest s)
  | inr (u, e) ↦ rw (e, after) (prepend (steps c i (λ _ _. refl) e) (after-Reach rest u))
]

abbrev new : Semaphore simple_posix
new = create simple_posix 0

-- Thread 0 finds the counter zero; thread 1 is in notify, in front of the signal.
abbrev signalling : List (ℕ × Choice)
signalling =
    ((0, wait false)
      ∷ (0, go)
      ∷ (0, go)
      ∷ (0, go)
      ∷ (1, notify 1)
      ∷ (1, go)
      ∷ (1, go)
      ∷ (1, go)
      ∷ (1, go)
      ∷ [])

abbrev at_signal : Semaphore simple_posix
at_signal = after signalling new

abbrev unnoticed : Semaphore simple_posix
unnoticed = moves simple_posix at_signal 1 outside

-- Then thread 0 sleeps.
abbrev falls_asleep : List (ℕ × Choice)
falls_asleep = (0, go) ∷ (0, go) ∷ []

abbrev lost : Semaphore simple_posix
lost = after falls_asleep unnoticed

runs : (at_signal.pcs 1 ≡ signals 0) × (lost.pcs 0 ≡ sleeping false) × (lost.count ≡ 1)
unfolding running after
runs = (refl, refl, refl)

nobody_sleeps : (j : ℕ) (timed : Bool) → at_signal.pcs j ≡ sleeping timed → ⊥
unfolding running after
nobody_sleeps zero timed asleep = absurd (cc asleep)
nobody_sleeps (suc zero) timed asleep = absurd (cc asleep)
nobody_sleeps (suc (suc j)) timed asleep =
    let away : at_signal.pcs (suc (suc j)) ≡ outside = ground arith in
    no_sleep (at_signal.pcs (suc (suc j))) timed away asleep
  where
    no_sleep : (x : Pc) (timed : Bool) → x ≡ outside → x ≡ sleeping timed → ⊥
    no_sleep x timed away asleep = absurd (cc (away, asleep))

lost_way : Reach simple_posix false true new lost
unfolding running after
lost_way =
    append (later (after-Reach signalling new) (wakes_nobody 1 0 refl nobody_sleeps))
      (after-Reach falls_asleep unnoticed)

count-balance_example : lost.count + lost.taken ≡ 0 + lost.given
count-balance_example = (count-balance simple_posix 0 false true lost lost_way).0

-- A third thread takes what is there; thread 0 sleeps on.
abbrev taken : Semaphore simple_posix
taken = after ((2, wait false) ∷ (2, go) ∷ (2, go) ∷ (2, go) ∷ (2, go) ∷ (2, go) ∷ []) lost
