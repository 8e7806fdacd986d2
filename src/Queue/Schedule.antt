-- ===== src/Queue/Schedule.antt =====
-- src/Queue.h: a queue run on a list of choices of its threads.
use ucxx.Base.{ℕ, ◌<◌, ltb, ltb→lt, ◌≡◌, refl, ap, Bool, true, false, ◌&&◌, List, [], ◌∷◌, inl}
use ucxx.Base.Threads.{update}
use ucxx.Posix.{Posix}
use ucxx.Queue.Effects.{Choice, Effect, interrupt, moved, blocked, undefined, next}
use ucxx.Queue.System.{System, Step, step, Reach, here, later}

-- A step of thread `i` that is no interruption.
abbrev is_call_or_go : {T : Type 0} → Choice T → Bool
is_call_or_go interrupt = false
is_call_or_go _ = true

abbrev is_moved : {p : Posix} {T : Type 0} → Effect p T → Bool
is_moved (moved m q) = true
is_moved _ = false

both : (a b : Bool) → (a && b) ≡ true → (a ≡ true) × (b ≡ true)
both true b h = (refl, h)
both false b h = absurd (cc h)

module _ (p : Posix) {T : Type 0} where
  abbrev landed : System p T → ℕ → Effect p T → System p T
  landed s i (moved m q) = record { mem = m; pc = update s.pc i q }
  landed s i _ = s

  abbrev pub schedule : System p T → List (ℕ × Choice T) → System p T
  schedule s [] = s
  schedule s ((i, c) ∷ rest) = schedule (landed s i (next p c i s.mem (s.pc i))) rest

  -- No choice names another thread, an interruption or a step that does not move.
  abbrev pub is_schedule : ℕ → System p T → List (ℕ × Choice T) → Bool
  is_schedule n s [] = true
  is_schedule n s ((i, c) ∷ rest) =
      ltb i n
      && (is_call_or_go c
          && (is_moved (next p c i s.mem (s.pc i))
              && is_schedule n (landed s i (next p c i s.mem (s.pc i))) rest))

  prepend :
      (n : ℕ) {s t u : System p T} → Step p n false s t → Reach p n false t u → Reach p n false s u
  prepend n first here = later here first
  prepend n first (later before last) = later (prepend n first before) last

  landed-Step :
      (n : ℕ) (s : System p T) (i : ℕ) (c : Choice T) (e : Effect p T)
      → i < n
      → is_call_or_go c ≡ true
      → next p c i s.mem (s.pc i) ≡ e
      → is_moved e ≡ true
      → Step p n false s (landed s i e)
  landed-Step n s i c (moved m q) below ok e moves =
      step i c below (inl (λ h. absurd (cc (ok, ap is_call_or_go h)))) e
  landed-Step n s i c blocked below ok e moves = absurd (cc moves)
  landed-Step n s i c undefined below ok e moves = absurd (cc moves)

  pub schedule-Reach :
      (n : ℕ) (s : System p T) (choices : List (ℕ × Choice T))
      → is_schedule n s choices ≡ true
      → Reach p n false s (schedule s choices)
  schedule-Reach n s [] ok = here
  schedule-Reach n s ((i, c) ∷ rest) ok =
      let (below, ok₁) = both (ltb i n) _ ok in
      let (calls, ok₂) = both (is_call_or_go c) _ ok₁ in
      let (moves, later_ok) = both (is_moved (next p c i s.mem (s.pc i))) _ ok₂ in
      prepend n
        (landed-Step n s i c (next p c i s.mem (s.pc i)) (ltb→lt i n below) calls refl moves)
        (schedule-Reach n (landed s i (next p c i s.mem (s.pc i))) rest later_ok)
