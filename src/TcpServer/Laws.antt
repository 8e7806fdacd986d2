-- ===== src/TcpServer/Laws.antt =====
-- src/TcpServer.cpp: which descriptors listen, accept and close leave open.
use ucxx.Base.{
  ◌<◌, ◌≤◌, ◌≢◌, ℕ, zero, suc, ◌≡◌, refl, List, Bool, true, false, Option, none, some, arith, ◌==◌,
  if◌then◌else◌, Bool-cases, ap, ◌∙◌, ◌⊎◌, inl, inr,
}
use native.Mathlib.Decide.{ℕ_discrete}
use ucxx.Base.Int.{ℤ, pos, negsuc, ℤ-cases}
use ucxx.Net.{Net, all, Call}
use ucxx.TcpSocket
use ucxx.TcpSocket.{TcpSocket, is_positive}
use ucxx.TcpSocket.Laws.{close_one, destroy_one}
use ucxx.TcpServer.{
  TcpServer, is_listening, native_socket, backlog, listen, listen_new, listen_bound, accept, close,
}

module _ (n : Net) (somaxconn : ℤ) where
  -- The descriptors behind a call that opens `fd`, and nothing else.
  abbrev pub Opens : n.State → n.State → ℕ → ℕ → Type 0
  Opens net after fd j =
      (n.is_open net fd ≡ false) × (n.is_open after j ≡ (if fd == j then true else n.is_open net j))

  -- The calls that listen makes, each behind the one before it.
  module _ (s : TcpServer) (net : n.State) (host : List ℕ) (port : ℕ) where
    abbrev pub bound : ℕ → Call n.State ℤ
    bound fd = n.bind (n.socket net).net (pos fd) host port

    abbrev pub listened : ℕ → Call n.State ℤ
    listened fd = n.listen (bound fd).net (pos fd) (backlog n somaxconn s)

    -- The server listens already, or one of the calls has failed.
    abbrev pub CannotListen : Type 0
    CannotListen =
        (is_listening s ≡ true)
        ⊎ ((m : ℕ) × ((n.socket net).result ≡ negsuc m))
        ⊎ ((fd m : ℕ) × ((n.socket net).result ≡ pos fd) × ((bound fd).result ≡ negsuc m))
        ⊎ ((fd : ℕ) × ((n.socket net).result ≡ pos fd) × ((listened fd).result ≢ pos 0))

    -- The server does not listen, and no call has failed.
    abbrev pub CanListen : ℕ → Type 0
    CanListen fd =
        (is_listening s ≡ false)
        × ((n.socket net).result ≡ pos fd)
        × ((k : ℕ) × ((bound fd).result ≡ pos k))
        × ((listened fd).result ≡ pos 0)

    abbrev pub Listened : ℕ → Call n.State (TcpServer × Bool) → Type 0
    Listened j c =
        (CannotListen × (c.result ≡ (s, false)) × (n.is_open c.net j ≡ n.is_open net j))
        ⊎ ((fd : ℕ) × CanListen fd
            × (c.result.1 ≡ true)
            × (native_socket c.result.0 ≡ pos fd)
            × Opens net c.net fd j)

  module _ (s : TcpServer) (free : is_listening s ≡ false) (net : n.State) (j fd : ℕ) where
    -- Closing a new descriptor undoes its opening.
    closed-opened :
        (new : n.State) → Opens net new fd j → n.is_open (n.close new (pos fd)) j ≡ n.is_open net j
    closed-opened new (fresh, same) = elim (ℕ_discrete fd j) [
      | yes at ↦ ground (arith, n.close-closes new fd j, ap (n.is_open net) at)
      | no off ↦ ground (arith, n.close-closes new fd j)
    ]

    module _ (host : List ℕ) (port : ℕ) (made : (n.socket net).result ≡ pos fd) where
      listen_bound-Listened :
          (k : ℕ)
          → (bound s net host port fd).result ≡ pos k
          → Opens net (bound s net host port fd).net fd j
          → Listened s net host port j
            (listen_bound n somaxconn (bound s net host port fd).net s (pos fd))
      unfolding listen_bound is_listening native_socket TcpSocket.of_native TcpSocket.native_socket
      listen_bound-Listened k is_bound (fresh, same) =
          let called = listened s net host port fd in
          let still =
            n.listen-keeps (bound s net host port fd).net (pos fd) (backlog n somaxconn s) j in
          let failed : (called.result ≢ pos 0) → CannotListen s net host port =
            λ not_zero. inr (inr (inr (fd, made, not_zero))) in
          elim (ℤ-cases called.result) [
            | inl (zero, e) ↦
                rw (e, listen_bound)
                  (inr (
                    fd,
                    (free, made, (k, is_bound), e),
                    refl,
                    refl,
                    (fresh, n.set_timeout-keeps called.net (pos fd) j ∙ still ∙ same),
                  ))
            | inl (suc m, e) ↦
                rw (e, listen_bound)
                  (inl (
                    failed (λ zero_too. absurd (cc (e, zero_too))),
                    refl,
                    closed-opened called.net (fresh, still ∙ same),
                  ))
            | inr (m, e) ↦
                rw (e, listen_bound)
                  (inl (
                    failed (λ zero_too. absurd (cc (e, zero_too))),
                    refl,
                    closed-opened called.net (fresh, still ∙ same),
                  ))
          ]

      listen_new-Listened :
          Opens net (n.socket net).net fd j
          → Listened s net host port j
            (listen_new n somaxconn (n.socket net).net s (pos fd) host port)
      unfolding listen_new
      listen_new-Listened (fresh, same) =
          let called = bound s net host port fd in
          let still = n.bind-keeps (n.socket net).net (pos fd) host port j in
          elim (ℤ-cases called.result) [
            | inl (m, e) ↦
                rw (e, listen_new) (listen_bound-Listened m e (fresh, still ∙ same))
            | inr (m, e) ↦
                rw (e, listen_new)
                  (inl (
                    inr (inr (inl (fd, m, made, e))),
                    refl,
                    closed-opened called.net (fresh, still ∙ same),
                  ))
          ]

  listen-new :
      (s : TcpServer) (net : n.State) (host : List ℕ) (port fd : ℕ)
      → is_listening s ≡ false
      → (n.socket net).result ≡ pos fd
      → listen n somaxconn net s host port
        ≡ listen_new n somaxconn (n.socket net).net s (pos fd) host port
  unfolding listen
  listen-new s net host port fd free made = rw (free, made, listen) refl

  listen-fails :
      (s : TcpServer) (net : n.State) (host : List ℕ) (port m : ℕ)
      → is_listening s ≡ false
      → (n.socket net).result ≡ negsuc m
      → listen n somaxconn net s host port
        ≡ record { net = (n.socket net).net; result = (s, false) }
  unfolding listen
  listen-fails s net host port m free made = rw (free, made, listen) refl

  -- listen returns false if the server listens already, or socket, bind or ::listen has failed (of
  -- ::listen: any other result than 0), and then leaves the server as it is and no descriptor open
  -- that was not. Else it returns true: ::listen has returned 0 for a new descriptor that socket has
  -- made and bind has bound; the server listens on it, and the other descriptors stay as they are.
  pub listen-Listened :
      (s : TcpServer) (net : n.State) (host : List ℕ) (port j : ℕ)
      → Listened s net host port j (listen n somaxconn net s host port)
  unfolding listen
  listen-Listened s net host port j = elim (Bool-cases (is_listening s)) [
    | inl busy ↦ rw (busy, listen) (inl (inl refl, refl, refl))
    | inr free ↦ elim (ℤ-cases (n.socket net).result) [
      | inl (fd, e) ↦ rw (listen-new s net host port fd free e) (
          listen_new-Listened s free net j fd host port e (n.socket-opens net fd j e))
      | inr (m, e) ↦
          rw (listen-fails s net host port m free e)
            (inl (inr (inl (m, e)), refl, n.socket-fails net m j e))
    ]
  ]

  module _ (fd_setsize : ℕ) (s : TcpServer) (net : n.State) where
    -- The calls that accept makes, on the descriptor `l`.
    abbrev pub selected : ℕ → Call n.State ℤ
    selected l = n.select net (pos l)

    abbrev pub accepted : ℕ → Call n.State (ℤ × List ℕ × ℕ)
    accepted l = n.accept (selected l).net (pos l)

    -- The server listens on `l`, and an fd_set has a place for it.
    abbrev pub CanSelect : ℕ → Type 0
    CanSelect l = (is_listening s ≡ true) × (native_socket s ≡ pos l) × (l < fd_setsize)

    abbrev pub NothingToAccept : Type 0
    NothingToAccept =
        (is_listening s ≡ false)
        ⊎ ((m : ℕ) × (native_socket s ≡ negsuc m))
        ⊎ ((l : ℕ) × CanSelect l × (is_positive (selected l).result ≡ false))
        ⊎ ((l m : ℕ) × CanSelect l
            × (is_positive (selected l).result ≡ true)
            × ((accepted l).result.0 ≡ negsuc m))

    abbrev pub Accepted : ℕ → Option (Call n.State (Option TcpSocket)) → Type 0
    Accepted j none =
        (l : ℕ) × (is_listening s ≡ true) × (native_socket s ≡ pos l) × (fd_setsize ≤ l)
    Accepted j (some c) =
        (NothingToAccept × (c.result ≡ none) × (n.is_open c.net j ≡ n.is_open net j))
        ⊎ ((l fd : ℕ) × (t : TcpSocket) × CanSelect l
            × (is_positive (selected l).result ≡ true)
            × ((accepted l).result.0 ≡ pos fd)
            × (c.result ≡ some t)
            × (t.socket ≡ pos fd)
            × (t.peer_addr ≡ (accepted l).result.1)
            × (t.peer_port ≡ some (accepted l).result.2)
            × Opens net c.net fd j)

  -- close of a listening server closes the descriptor of its socket and no other, and the server
  -- listens no longer.
  pub close_listening :
      (s : TcpServer) (t : TcpSocket) (net : n.State) (fd j : ℕ)
      → s.server_socket ≡ some t
      → t.socket ≡ pos fd
      → (is_listening (close n somaxconn net s).result ≡ false)
        × (n.is_open (close n somaxconn net s).net j ≡ (if fd == j then false else n.is_open net j))
  unfolding close is_listening
  close_listening s t net fd j has at =
      let closed = TcpSocket.close n net t all in
      rw (has, close)
        (refl, ground (arith, destroy_one n closed t fd j at, close_one n net t fd j at))
