-- ===== src/TcpSocket/Connect.antt =====
-- src/TcpSocket.cpp: connectToHost on every branch, and the descriptors that it leaves open.
use ucxx.Base.{
  ℕ, zero, suc, ◌≡◌, ◌⊎◌, refl, sym, ap, subst, ◌∙◌, List, Bool, true, false, inl, inr, Bool-cases,
  ◌==◌, if◌then◌else◌,
}
use ucxx.Base.Int.{ℤ, pos, negsuc, ℤ-cases}
use ucxx.Net.{Net, Call, all}
use ucxx.TcpSocket.{
  TcpSocket, is_positive, is_connected, close, connect_to_host, connect_from, connect_new,
}
use ucxx.TcpSocket.Laws.{close_one, connected_positive}

module _ (n : Net) (net : n.State) (t : TcpSocket) where
  -- The system behind the test for an old connection.
  abbrev pub net_before : n.State
  net_before = if is_connected t then close n net t all else net

  -- Which descriptors are open without that of the old connection.
  abbrev pub is_kept : ℤ → ℕ → Bool
  is_kept (pos zero) j = n.is_open net j
  is_kept (pos (suc old)) j = if suc old == j then false else n.is_open net j
  is_kept (negsuc m) j = n.is_open net j

  off-kept : (s : ℤ) (j : ℕ) → t.socket ≡ s → is_connected t ≡ false → n.is_open net j ≡ is_kept s j
  unfolding is_connected
  off-kept (pos zero) j at off = refl
  off-kept (negsuc m) j at off = refl
  off-kept (pos (suc old)) j at off = absurd (cc (off, connected_positive t old at))

  on-kept :
      (s : ℤ) (j : ℕ)
      → t.socket ≡ s
      → is_connected t ≡ true
      → n.is_open (close n net t all) j ≡ is_kept s j
  unfolding is_connected
  on-kept (pos (suc old)) j at on = close_one n net t (suc old) j at
  on-kept (pos zero) j at on = absurd (cc (on, ap is_positive at))
  on-kept (negsuc m) j at on = absurd (cc (on, ap is_positive at))

  before-kept : (j : ℕ) → n.is_open net_before j ≡ is_kept t.socket j
  before-kept j = elim (Bool-cases (is_connected t)) [
    | inl on ↦ subst by_test (sym on) (on-kept t.socket j refl on)
    | inr off ↦ subst by_test (sym off) (off-kept t.socket j refl off)
  ]
    where
      by_test : Bool → Type 0
      by_test b = n.is_open (if b then close n net t all else net) j ≡ is_kept t.socket j

  abbrev pub MakesOne : n.State → ℕ → n.State → ℕ → Type 0
  MakesOne before fd behind j =
      ((n.socket before).result ≡ pos fd)
      × (is_kept t.socket fd ≡ false)
      × (n.is_open behind j ≡ (if fd == j then true else is_kept t.socket j))

  -- What connect returns for the new descriptor.
  abbrev pub connected : n.State → List ℕ → ℕ → ℕ → ℤ
  connected before host port fd = (n.connect (n.socket before).net (pos fd) host port).result

  -- No descriptor is made; or one is made, connect refuses, and it is left open, and the socket
  -- stays as it is; or connect accepts, and the socket has the new one.
  abbrev pub Connected : n.State → List ℕ → ℕ → ℕ → Call n.State (TcpSocket × Bool) → Type 0
  Connected before host port j c =
      ((m : ℕ) × ((n.socket before).result ≡ negsuc m)
        × (c.result.1 ≡ false)
        × (c.result.0.socket ≡ t.socket)
        × (n.is_open c.net j ≡ is_kept t.socket j))
      ⊎ ((fd m : ℕ) × (connected before host port fd ≡ negsuc m)
          × (c.result ≡ (t, false))
          × MakesOne before fd c.net j)
      ⊎ ((fd k : ℕ) × (connected before host port fd ≡ pos k)
          × (c.result ≡ (record t { socket = pos fd }, true))
          × MakesOne before fd c.net j)

  from-Connected :
      (before : n.State) (host : List ℕ) (port j : ℕ)
      → ((i : ℕ) → n.is_open before i ≡ is_kept t.socket i)
      → Connected before host port j (connect_from n before t host port)
  unfolding connect_from connect_new
  from-Connected before host port j kept = elim (ℤ-cases (n.socket before).result) [
    | inr (m, none_made) ↦
        rw (none_made, connect_from)
          (inl (m, refl, refl, refl, n.socket-fails before m j none_made ∙ kept j))
    | inl (fd, made) ↦
        let (fresh, opened) = n.socket-opens before fd j made in
        let still = n.connect-keeps (n.socket before).net (pos fd) host port j in
        let behind : n.is_open (n.connect (n.socket before).net (pos fd) host port).net j
            ≡ (if fd == j then true else is_kept t.socket j) =
          still ∙ rw (sym (kept j)) opened in
        elim (ℤ-cases (n.connect (n.socket before).net (pos fd) host port).result) [
          | inl (m, accepted) ↦
              rw (made, accepted, connect_from, connect_new)
                (inr (inr (fd, m, accepted, refl, (refl, sym (kept fd) ∙ fresh, behind))))
          | inr (m, refused) ↦
              rw (made, refused, connect_from, connect_new)
                (inr (inl (fd, m, refused, refl, (refl, sym (kept fd) ∙ fresh, behind))))
        ]
  ]

  -- connectToHost closes the descriptor of an old connection, and has the system make a new one. If
  -- that fails, it returns false. If connect then fails on it, it returns false, leaves the new
  -- descriptor open, and the socket as it is. If connect succeeds, it returns true, with the new
  -- descriptor as the socket's. The other descriptors stay as they are.
  pub connect-Connected :
      (host : List ℕ) (port j : ℕ)
      → Connected net_before host port j (connect_to_host n net t host port)
  unfolding connect_to_host
  connect-Connected host port j = from-Connected net_before host port j before-kept
