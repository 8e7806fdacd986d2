-- ===== src/Queue/Steps.antt =====
-- src/Queue.h: what a step of a thread does to the mutex, to the permits and to the queue.
use ucxx.Base.{
  ℕ, suc, ◌+◌, ◌≤◌, ◌<◌, ◌≡◌, ◌≢◌, ◌⊎◌, refl, false, List, [], ◌∷◌, some, ltb, length, arith, ◌==◌,
  if◌then◌else◌, inl, inr, Option-cases,
}
use native.Mathlib.Decide.{dec_lt}
use ucxx.Mutex
use ucxx.Posix.{Posix}
use ucxx.Queue.Effects.{
  Shared, Pc, Effect, idle, dequeue_wait, dequeue_lock, dequeue_front, dequeue_pop, enqueue_lock,
  enqueue_notify, head_lock, count_lock, clear_lock, clear_test, clear_wait, clear_assign, moved,
  blocked, undefined, lock_then, unlock_then, wait_then, front_then, next,
}

-- The locks of m_mutex that a thread holds at each step.
abbrev pub inside : {T : Type 0} → Pc T → ℕ
inside idle = 0
inside dequeue_wait = 0
inside dequeue_lock = 0
inside (enqueue_lock t) = 0
inside head_lock = 0
inside count_lock = 0
inside clear_lock = 0
inside _ = 1

-- Elements for which the semaphore holds no permit: a thread that dequeues or clears has taken it,
-- or a thread that enqueues has not yet posted it.
abbrev pub claims : {T : Type 0} → Pc T → ℕ
claims dequeue_lock = 1
claims dequeue_front = 1
claims (dequeue_pop e) = 1
claims enqueue_notify = 1
claims (clear_test k) = k
claims (clear_wait k) = k
claims (clear_assign k) = k
claims _ = 0

-- What the local variables of a thread say about the queue.
abbrev pub IsFresh : {T : Type 0} → List T → Pc T → Type 0
IsFresh {T} q (dequeue_pop e) = (rest : List T) × (q ≡ e ∷ rest)
IsFresh q (clear_wait k) = k < length q
IsFresh q (clear_assign k) = length q ≤ k
IsFresh q _ = Unit {0}

pub ltb-false : (a b : ℕ) → b ≤ a → ltb a b ≡ false
ltb-false a b h = ground arith

pub List-cases {ℓ} :
    {A : Type ℓ} (l : List A) → (l ≡ []) ⊎ ((e : A) × (rest : List A) × (l ≡ e ∷ rest))
List-cases [] = inl refl
List-cases (e ∷ rest) = inr (e, rest, refl)

lock-free :
    (p : Posix) (m m' : p.MutexState) (i j : ℕ)
    → i ≢ j
    → p.mutex_lock m i ≡ some m'
    → p.held m j ≡ 0
lock-free p m m' i j other enters = elim (dec_lt 0 (p.held m j)) [
  | yes some_held ↦ absurd (cc (enters, p.lock-blocks m i j other some_held))
  | no none_held ↦ omega arith
]

module _ (p : Posix) {T : Type 0} where
  open p use {
    held, sem_getvalue, held-lock, held-unlock, lock-blocks, wait-blocks, wait-enters,
    getvalue-post,
  }

  -- What one step of thread `i` does, as far as the invariant sees it.
  pub record Moved (i : ℕ) (m : Shared p T) (a : Pc T) (m' : Shared p T) (b : Pc T) : Type 0 where
    pub holds : (j : ℕ) → held m'.mutex j ≡ (if i == j then inside b else held m.mutex j)
    pub enters : (j : ℕ) → i ≢ j → inside a ≡ 0 → 0 < inside b → held m.mutex j ≡ 0
    pub counts :
        sem_getvalue m'.semaphore + claims b + length m.queue
        ≡ sem_getvalue m.semaphore + claims a + length m'.queue
    pub keeps : inside a ≡ 0 → m'.queue ≡ m.queue
    pub fresh : IsFresh m'.queue b

  abbrev pub Kept : ℕ → Shared p T → Pc T → Effect p T → Type 0
  Kept i m a (moved m' b) = Moved i m a m' b
  Kept i m a blocked = Unit {0}
  Kept i m a undefined = Unit {0}

  module _ (i : ℕ) (m : Shared p T) (a b : Pc T) (own : held m.mutex i ≡ inside a) where
    pub lock-Kept :
        inside a ≡ 0
        → inside b ≡ 1
        → claims a ≡ claims b
        → IsFresh m.queue b
        → Kept i m a (lock_then p i m b)
    unfolding lock_then Mutex.lock
    lock-Kept out entered same f = elim (Option-cases (p.mutex_lock m.mutex i)) [
      | inl blocks ↦ rw (blocks, Kept, lock_then, Mutex.lock) tt
      | inr (x, enters) ↦
          rw (enters, Kept, lock_then, Mutex.lock)
            record {
              holds = λ j. ground (arith, held-lock m.mutex x i j enters);
              enters = λ j other out_a in_b. lock-free p m.mutex x i j other enters;
              counts = omega arith;
              keeps = λ _. refl;
              fresh = f;
            }
    ]

    pub unlock-Kept :
        inside a ≡ 1
        → inside b ≡ 0
        → claims a ≡ claims b
        → IsFresh m.queue b
        → Kept i m a (unlock_then p i m b)
    unfolding unlock_then Mutex.unlock
    unlock-Kept entered out same f = record {
      holds = λ j. ground (arith, held-unlock m.mutex i j (omega arith));
      enters = λ j other out_a h. absurd (omega arith);
      counts = omega arith;
      keeps = λ _. refl;
      fresh = f;
    }

    pub wait-Kept :
        inside a ≡ inside b
        → claims b ≡ suc (claims a)
        → IsFresh m.queue b
        → Kept i m a (wait_then p m b)
    unfolding wait_then
    wait-Kept same more f = elim (dec_lt 0 (sem_getvalue m.semaphore)) [
      | no out ↦ rw (wait-blocks m.semaphore (omega arith), Kept, wait_then) tt
      | yes permit ↦
          let (x, e, d) = wait-enters m.semaphore permit in
          rw (e, Kept, wait_then)
            record {
              holds = λ j. ground arith;
              enters = λ j other out_a h. absurd (omega arith);
              counts = omega arith;
              keeps = λ _. refl;
              fresh = f;
            }
    ]

    pub stay-Kept : inside a ≡ inside b → claims a ≡ claims b → IsFresh m.queue b → Moved i m a m b
    stay-Kept same same_claims f = record {
      holds = λ j. ground arith;
      enters = λ j other out_a h. absurd (omega arith);
      counts = omega arith;
      keeps = λ _. refl;
      fresh = f;
    }

  pub front-Kept :
      (i : ℕ) (m : Shared p T) (a : Pc T) (next : T → Pc T)
      → held m.mutex i ≡ inside a
      → ((e : T) → inside a ≡ inside (next e))
      → ((e : T) → claims a ≡ claims (next e))
      → ((e : T) (rest : List T) → m.queue ≡ e ∷ rest → IsFresh m.queue (next e))
      → Kept i m a (front_then p m next)
  unfolding front_then
  front-Kept i m a next own same same_claims f = elim (List-cases m.queue) [
    | inl empty ↦ rw (empty, Kept, front_then) tt
    | inr (e, rest, q) ↦
        rw (q, Kept, front_then)
          (stay-Kept i m a (next e) own (same e) (same_claims e) (f e rest q))
  ]
