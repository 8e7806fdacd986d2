-- ===== src/Net/Interface.antt =====
-- The system's socket calls, with the descriptors that are open.
use ucxx.Base.{ℕ, ◌≤◌, ◌≡◌, List, Bool, true, false, Option, length, ◌==◌, if◌then◌else◌}
use ucxx.Base.Int.{ℤ, pos, negsuc}

-- Socket::Stream, as shutdown takes it.
pub data Stream : Type 0 where
  incoming outgoing all : Stream

-- What a call leaves and returns.
pub record Call (S A : Type 0) : Type 0 where
  pub net : S
  pub result : A

pub record Net : Type 1 where
  pub State : Type 0
  pub is_open : State → ℕ → Bool
  -- A negative number is a failure.
  pub socket : State → Call State ℤ
  pub connect : State → ℤ → List ℕ → ℕ → Call State ℤ
  pub bind : State → ℤ → List ℕ → ℕ → Call State ℤ
  pub listen : State → ℤ → ℤ → Call State ℤ
  -- The time that the call waits is its own affair.
  pub select : State → ℤ → Call State ℤ
  -- With the address and the port of the client.
  pub accept : State → ℤ → Call State (ℤ × List ℕ × ℕ)
  -- With the bytes that the call has stored.
  pub recv : State → ℤ → ℕ → Call State (ℤ × List ℕ)
  pub send : State → ℤ → List ℕ → Call State ℤ
  -- FIONREAD; `none`: the call fails and stores nothing.
  pub pending : State → ℤ → Option ℕ
  pub set_timeout : State → ℤ → State
  pub shutdown : State → ℤ → Stream → State
  pub close : State → ℤ → State
  -- A new descriptor is one that is not open; no other call but close changes which are open.
  pub socket-opens :
      (s : State) (fd j : ℕ)
      → (socket s).result ≡ pos fd
      → (is_open s fd ≡ false)
        × (is_open (socket s).net j ≡ (if fd == j then true else is_open s j))
  pub socket-fails :
      (s : State) (n j : ℕ) → (socket s).result ≡ negsuc n → is_open (socket s).net j ≡ is_open s j
  pub accept-opens :
      (s : State) (l : ℤ) (fd j : ℕ)
      → (accept s l).result.0 ≡ pos fd
      → (is_open s fd ≡ false)
        × (is_open (accept s l).net j ≡ (if fd == j then true else is_open s j))
  pub accept-fails :
      (s : State) (l : ℤ) (n j : ℕ)
      → (accept s l).result.0 ≡ negsuc n
      → is_open (accept s l).net j ≡ is_open s j
  pub connect-keeps :
      (s : State) (fd : ℤ) (host : List ℕ) (port j : ℕ)
      → is_open (connect s fd host port).net j ≡ is_open s j
  pub bind-keeps :
      (s : State) (fd : ℤ) (host : List ℕ) (port j : ℕ)
      → is_open (bind s fd host port).net j ≡ is_open s j
  pub listen-keeps :
      (s : State) (fd backlog : ℤ) (j : ℕ) → is_open (listen s fd backlog).net j ≡ is_open s j
  pub select-keeps : (s : State) (fd : ℤ) (j : ℕ) → is_open (select s fd).net j ≡ is_open s j
  pub shutdown-keeps :
      (s : State) (fd : ℤ) (how : Stream) (j : ℕ) → is_open (shutdown s fd how) j ≡ is_open s j
  pub set_timeout-keeps : (s : State) (fd : ℤ) (j : ℕ) → is_open (set_timeout s fd) j ≡ is_open s j
  pub close-closes :
      (s : State) (fd j : ℕ)
      → is_open (close s (pos fd)) j ≡ (if fd == j then false else is_open s j)
  pub close-fails : (s : State) (n j : ℕ) → is_open (close s (negsuc n)) j ≡ is_open s j
  -- recv stores no more than it is asked for, and returns how much it has stored.
  pub recv-length :
      (s : State) (fd : ℤ) (n k : ℕ)
      → (recv s fd n).result.0 ≡ pos k
      → (length (recv s fd n).result.1 ≡ k) × (k ≤ n)
