-- ===== src/Thread/Win32/Tests.antt =====
-- Runs of threads of src/Thread.cpp under WIN32, and the laws on them.
use ucxx.Base.{
  ℕ, ◌≡◌, ◌≤◌, refl, true, false, Option, none, some, List, [], ◌∷◌, inl, inr, Option-cases,
}
use ucxx.Mutex.Win32
use ucxx.Mutex.Win32.Instance.{simple_kernel}
use ucxx.Thread.{
  finished, set_write, outside, is_running_lock, joining, ClientChoice, start, terminate,
  is_running, join, next, is_ended,
}
use ucxx.Thread.Win32.{
  Thread, go, die, create, set_running, run, resumed_runner, thread_runner, client_step, Step,
  runner_moves, client_moves, Reach, here, later,
}
use ucxx.Thread.Win32.Laws.{HasRun, run-resumed, is_running-terminated}

running : ℕ
unfolding thread_runner resumed_runner client_step set_running run is_ended create Win32.create
    Win32.lock Win32.unlock
running = 0

abbrev State : Type 0
State = Thread simple_kernel

-- A step of the thread, or of one of the threads that use it, without terminate().
data Move : Type 0 where
  own : Move
  starts : ℕ → Move
  asks : ℕ → Move
  joins : ℕ → Move
  goes : ℕ → Move

abbrev choice : Move → ℕ × ClientChoice
choice own = (0, next)
choice (starts i) = (i, start)
choice (asks i) = (i, is_running)
choice (joins i) = (i, join)
choice (goes i) = (i, next)

abbrev step : Move → State → Option State
step own t = thread_runner simple_kernel go t t.runner
step m t = client_step simple_kernel (choice m).1 (choice m).0 t (t.clients (choice m).0)

as_step :
    (m : Move) (t u : State) → t.aborted ≡ false → step m t ≡ some u → Step simple_kernel false t u
as_step own t u ok e = runner_moves go ok e
as_step (starts i) t u ok e = client_moves i start ok (inl (λ h. absurd (cc h))) e
as_step (asks i) t u ok e = client_moves i is_running ok (inl (λ h. absurd (cc h))) e
as_step (joins i) t u ok e = client_moves i join ok (inl (λ h. absurd (cc h))) e
as_step (goes i) t u ok e = client_moves i next ok (inl (λ h. absurd (cc h))) e

-- The moves, the last one first; one that blocks is left out.
unfoldable after : List Move → State
unfolding create Win32.create
after [] = create simple_kernel true
after (m ∷ before) = elim (step m (after before)) [ none ↦ after before | some u ↦ u ]

unfoldable IsWhole : List Move → Type 0
unfolding after
IsWhole [] = Unit {0}
IsWhole (m ∷ before) = ((after before).aborted ≡ false) × IsWhole before

after-Reach :
    (ms : List Move) → IsWhole ms → Reach simple_kernel false (create simple_kernel true) (after ms)
unfolding after IsWhole
after-Reach [] ok = here
after-Reach (m ∷ before) ok = elim (Option-cases (step m (after before))) [
  | inl blocks ↦ rw (blocks, after) (after-Reach before ok.1)
  | inr (u, e) ↦ rw (e, after) (later (after-Reach before ok.1) (as_step m (after before) u ok.0 e))
]

abbrev to_end : List Move
to_end = own ∷ own ∷ own ∷ own ∷ own ∷ own ∷ own ∷ starts 0 ∷ joins 2 ∷ own ∷ []

abbrev in_set_running : List Move
in_set_running = own ∷ starts 0 ∷ asks 1 ∷ []

runs :
    ((after (own ∷ [])).runs ≡ 0)
    × ((after to_end).runner ≡ finished)
    × ((after to_end).runs ≡ 1)
    × ((after in_set_running).runner ≡ set_write true)
    × ((after in_set_running).clients 1 ≡ is_running_lock)
unfolding running after
runs = (refl, refl, refl, refl, refl)

to_end-IsWhole : IsWhole to_end
unfolding running after IsWhole
to_end-IsWhole = (refl, (refl, (refl, (refl, (refl, (refl, (refl, (refl, (refl, (refl, tt))))))))))

in_set_running-IsWhole : IsWhole in_set_running
unfolding running after IsWhole
in_set_running-IsWhole = (refl, (refl, (refl, tt)))

run-resumed_example :
    ((after to_end).aborted ≡ false)
    × ((after to_end).starts ≡ 0
        → (thread_runner simple_kernel go (after to_end) (after to_end).runner ≡ none)
          × ((after to_end).running ≡ false)
          × ((after to_end).runs ≡ 0)
          × ((i : ℕ) → client_step simple_kernel next i (after to_end) joining ≡ none))
    × ((after to_end).runs ≤ 1)
    × ((after to_end).runs ≡ 1 → (after to_end).runnable ≡ true)
    × ((i : ℕ) (u : State)
        → client_step simple_kernel next i (after to_end) joining ≡ some u
        → HasRun simple_kernel (after to_end))
unfolding running after IsWhole
run-resumed_example =
    run-resumed simple_kernel true (after to_end) (after-Reach to_end to_end-IsWhole)

-- terminate() is called, and takes effect.
abbrev behind : Option State → State
behind none = create simple_kernel true
behind (some u) = u

abbrev called : State
called = behind (client_step simple_kernel terminate 0 (after in_set_running) outside)

abbrev dead : State
dead = behind (thread_runner simple_kernel die called called.runner)

is_running-terminated_example :
    (w : State) × (client_step simple_kernel next 1 dead (dead.clients 1) ≡ some w)
    × (w.aborted ≡ true)
unfolding running after
is_running-terminated_example =
    is_running-terminated simple_kernel true (after in_set_running) called dead 0 1
      (after-Reach in_set_running in_set_running-IsWhole) refl refl refl refl refl
