-- ===== src/Sema/Counter.antt =====
-- What src/Sema.h promises, whatever the platform: a counter that notify raises and that wait
-- lowers where it is positive.
use ucxx.Base.{ℕ, suc}

-- From the counter `n`, `given` increments and `taken` decrements lead to `m`.
pub data Runs (n : ℕ) : ℕ → ℕ → ℕ → Type 0 where
  initially : Runs n 0 0 n
  post : {given taken m : ℕ} → Runs n given taken m → Runs n (suc given) taken (suc m)
  take : {given taken m : ℕ} → Runs n given taken (suc m) → Runs n given (suc taken) m
