-- ===== src/Thread/Tests.antt =====
-- Runs of threads of src/Thread.cpp, and the laws on them.
use ucxx.Base.{
  ℕ, ◌≡◌, ◌≤◌, refl, true, false, Option, none, some, List, [], ◌∷◌, ◌++◌, inl, inr, Option-cases,
}
use ucxx.Mutex
use ucxx.Posix.{simple_posix}
use ucxx.Sema.Unix
use ucxx.Thread.{
  waiting, body, finished, reported, joining, Thread, ClientChoice, start, is_running, join, next,
  go, interrupt, create, set_running, run, thread_runner, is_ended, client_step, Step, runner_moves,
  client_moves, Reach, here,
}
use ucxx.Thread.Clients.{prepend}
use ucxx.Thread.Laws.{runs_now, run-started}
use ucxx.Thread.Progress.{run_alone}

running : ℕ
unfolding thread_runner client_step set_running run is_ended create run_alone runs_now Mutex.create
    Mutex.lock Mutex.unlock Unix.create Unix.notify Unix.post_loop
running = 0

data Move : Type 0 where
  own : Move
  by : ℕ → ClientChoice → Move

abbrev step : Move → Thread simple_posix → Option (Thread simple_posix)
step own t = thread_runner simple_posix go t t.runner
step (by i c) t = client_step simple_posix c i t (t.clients i)

-- The moves one after the other; one that blocks is left out.
unfoldable after : List Move → Thread simple_posix → Thread simple_posix
after [] t = t
after (move ∷ rest) t = elim (step move t) [ none ↦ after rest t | some u ↦ after rest u ]

as_step :
    (move : Move) (t u : Thread simple_posix) → step move t ≡ some u → Step simple_posix false t u
as_step own t u e = runner_moves go (inl (λ h. absurd (cc h))) e
as_step (by i c) t u e = client_moves i c e

after-Reach :
    (moves : List Move) (t : Thread simple_posix) → Reach simple_posix false t (after moves t)
unfolding after
after-Reach [] t = here
after-Reach (move ∷ rest) t = elim (Option-cases (step move t)) [
  | inl blocks ↦ rw (blocks, after) (after-Reach rest t)
  | inr (u, e) ↦ rw (e, after) (prepend simple_posix (as_step move t u e) (after-Reach rest u))
]

abbrev new : Thread simple_posix
new = create simple_posix true

-- The thread's steps before start() block.
abbrev refused : List Move
refused = own ∷ by 0 join ∷ by 0 next ∷ []

abbrev to_body : List Move
to_body = by 0 start ∷ own ∷ own ∷ own ∷ own ∷ []

abbrev asked : List Move
asked = to_body ++ by 1 is_running ∷ by 1 next ∷ []

abbrev to_end : List Move
to_end = by 2 join ∷ to_body ++ own ∷ own ∷ own ∷ own ∷ []

runs :
    ((after refused new).runner ≡ waiting)
    × ((after to_body new).runner ≡ body)
    × ((after (asked ++ by 1 next ∷ []) new).clients 1 ≡ reported true)
    × ((after to_end new).runner ≡ finished)
    × ((after to_end new).runs ≡ 1)
unfolding running after
runs = (refl, refl, refl, refl, refl)

-- A signal that interrupts the wait for the start: the runnable runs, and start() was not called.
interrupted_start :
    (u : Thread simple_posix) × (thread_runner simple_posix interrupt new waiting ≡ some u)
    × ((run_alone simple_posix 8 u).runs ≡ 1)
    × ((run_alone simple_posix 8 u).starts ≡ 0)
unfolding running
interrupted_start = (_, refl, refl, refl)

run-started_example :
    ((after refused new).starts ≡ 0
      → (after refused new).cancel_pending ≡ false
      → ((after refused new).runner ≡ waiting)
        × ((after refused new).running ≡ false)
        × ((after refused new).runs ≡ 0)
        × (thread_runner simple_posix go (after refused new) (after refused new).runner ≡ none)
        × ((i : ℕ) → client_step simple_posix next i (after refused new) joining ≡ none))
    × ((after refused new).runs ≤ 1)
    × ((after refused new).runs ≡ 1 → (after refused new).runnable ≡ true)
run-started_example = run-started simple_posix true (after refused new) (after-Reach refused new)
