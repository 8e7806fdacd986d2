-- ===== src/Serializer/Interface.antt =====
-- src/IVariantSerializer.h: a serializer as its clients see it, what one promises, and a client.
use ucxx.Base.{ℕ, ◌+◌, ◌<◌, ◌≡◌, refl, ap, List, [], ◌∷◌, ◌++◌, Option, none, some}
use ucxx.Variant.{Variant}

-- How popValue comes back: with true and the value, with false, or not at all.
pub data Popped (S : Type 0) : Type 0 where
  popped : Variant → S → Popped S
  refused : S → Popped S
  undefined : Popped S

-- class IVariantSerializer
pub record VariantSerializer : Type 1 where
  pub State : Type 0
  -- `none`: undefined behaviour.
  pub push_value : Variant → State → Option State
  pub pop_value : State → Popped State

-- A serializer is a queue of values, as far as it has room: popValue gives the value that has been
-- pushed first of those that it has not given yet, and false when there is none.
pub record Queues (z : VariantSerializer) : Type 1 where
  -- The values that are still to come, and how much of the room is used.
  pub Holds : z.State → ℕ → List Variant → Type 0
  pub Accepts : Variant → Type 0
  pub size : Variant → ℕ
  pub room : ℕ
  pub push-Holds :
      (s : z.State) (used : ℕ) (vs : List Variant) (v : Variant)
      → Holds s used vs
      → Accepts v
      → used + size v < room
      → (t : z.State) × (z.push_value v s ≡ some t) × Holds t (used + size v) (vs ++ v ∷ [])
  pub pop-Holds :
      (s : z.State) (used : ℕ) (v : Variant) (vs : List Variant)
      → Holds s used (v ∷ vs)
      → (t : z.State) × (z.pop_value s ≡ popped v t) × Holds t used vs
  pub pop_none-Holds :
      (s : z.State) (used : ℕ)
      → Holds s used []
      → (t : z.State) × (z.pop_value s ≡ refused t) × Holds t used []

pub data Call : Type 0 where
  push : Variant → Call
  pop : Call

-- What popValue returns, call by call, until a call is undefined.
module _ (z : VariantSerializer) where
  unfoldable pub run : z.State → List Call → List (Option Variant)
  run s [] = []
  run s (push v ∷ calls) = elim (z.push_value v s) [ none ↦ [] | some t ↦ run t calls ]
  run s (pop ∷ calls) = elim (z.pop_value s) [
    | popped v t ↦ some v ∷ run t calls
    | refused t ↦ none ∷ run t calls
    | undefined ↦ []
  ]

-- The same calls of a queue.
unfoldable pub run_queue : List Variant → List Call → List (Option Variant)
run_queue vs [] = []
run_queue vs (push v ∷ calls) = run_queue (vs ++ v ∷ []) calls
run_queue [] (pop ∷ calls) = none ∷ run_queue [] calls
run_queue (v ∷ vs) (pop ∷ calls) = some v ∷ run_queue vs calls

module _ (z : VariantSerializer) (q : Queues z) where
  open q use {Holds, Accepts, size, room, push-Holds, pop-Holds, pop_none-Holds}

  -- The values that are pushed are accepted, and there is room for all of them.
  unfoldable pub Fits : ℕ → List Call → Type 0
  Fits used [] = Unit {0}
  Fits used (push v ∷ calls) = Accepts v × (used + size v < room) × Fits (used + size v) calls
  Fits used (pop ∷ calls) = Fits used calls

  -- A client cannot tell a serializer from a queue.
  pub run-Holds :
      (s : z.State) (used : ℕ) (vs : List Variant) (calls : List Call)
      → Holds s used vs
      → Fits used calls
      → run z s calls ≡ run_queue vs calls
  unfolding run run_queue Fits
  run-Holds s used vs [] h fits = refl
  run-Holds s used vs (push v ∷ calls) h fits =
      let (t, e, h') = push-Holds s used vs v h fits.0 fits.1 in
      rw (e, run) (run-Holds t (used + size v) (vs ++ v ∷ []) calls h' fits.2)
  run-Holds s used [] (pop ∷ calls) h fits =
      let (t, e, h') = pop_none-Holds s used h in
      rw (e, run) (ap (λ (r : List (Option Variant)). none ∷ r) (run-Holds t used [] calls h' fits))
  run-Holds s used (v ∷ vs) (pop ∷ calls) h fits =
      let (t, e, h') = pop-Holds s used v vs h in
      rw (e, run)
        (ap (λ (r : List (Option Variant)). some v ∷ r) (run-Holds t used vs calls h' fits))
