-- ===== src/TcpSocket/Laws.antt =====
-- src/TcpSocket.cpp: what the methods return, and which descriptors they leave open.
use ucxx.Base.{
  ℕ, suc, subst, ◌≤◌, ◌<◌, ◌^◌, ◌≡◌, refl, List, true, false, some, arith, length, lt→ltb, ◌==◌,
  if◌then◌else◌, take,
}
use ucxx.Base.Int.{pos, negsuc, to_int-fits}
use ucxx.ByteArray.Laws.{take-all}
use ucxx.ByteArray
use ucxx.ByteArray.{ByteArray}
use ucxx.Net.{Net, all}
use ucxx.Socket
use ucxx.TcpSocket.{
  TcpSocket, is_connected, native_socket, read_buffer, read, close, destroy, connect_to_host,
  connect_from, connect_new,
}

stored-all :
    (bs : List ℕ) (k : ℕ)
    → length bs ≡ k
    → ByteArray.from_buffer bs k ≡ some (record { bytes = bs })
unfolding ByteArray.from_buffer
stored-all bs k all_stored =
    let whole : take k bs ≡ bs = subst (λ i. take i bs ≡ bs) all_stored (take-all bs) in
    ground (arith, whole)

stored-none : (bs : List ℕ) → ByteArray.from_buffer bs 0 ≡ some ByteArray.empty
unfolding ByteArray.from_buffer
stored-none bs = ground arith

pub connected_positive : (t : TcpSocket) (m : ℕ) → t.socket ≡ pos (suc m) → is_connected t ≡ true
unfolding is_connected
connected_positive t m at = rw (at) (lt→ltb 0 (suc m) (omega arith))

pub close_one :
    (n : Net) (net : n.State) (t : TcpSocket) (fd j : ℕ)
    → t.socket ≡ pos fd
    → n.is_open (close n net t all) j ≡ (if fd == j then false else n.is_open net j)
unfolding close native_socket
close_one n net t fd j at = rw (at) (
    ground (
      arith,
      n.close-closes (n.shutdown net (pos fd) all) fd j,
      n.shutdown-keeps net (pos fd) all j,
    ))

-- The destructor closes the descriptor of the socket and no other.
pub destroy_one :
    (n : Net) (net : n.State) (t : TcpSocket) (fd j : ℕ)
    → t.socket ≡ pos fd
    → n.is_open (destroy n net t) j ≡ (if fd == j then false else n.is_open net j)
unfolding destroy
destroy_one n net t fd j at =
    rw (at) (ground (arith, n.close-closes (close n net t all) fd j, close_one n net t fd j at))

connect-made :
    (n : Net) (net : n.State) (t : TcpSocket) (host : List ℕ) (port fd : ℕ)
    → (n.socket net).result ≡ pos fd
    → connect_from n net t host port ≡ connect_new n (n.socket net).net t (pos fd) host port
unfolding connect_from
connect-made n net t host port fd made = rw (made, connect_from) refl

module _ (n : Net) (net : n.State) (t : TcpSocket) where
  -- read on a connected socket, where recv returns less than 2^31, returns an array of the bytes that
  -- have arrived, no more than it has been asked for, and sets no error.
  pub read-recv :
      (size k : ℕ)
      → is_connected t ≡ true
      → (n.recv net t.socket size).result.0 ≡ pos k
      → k < 2 ^ 31
      → ((read n net t size).result
          ≡ (t, some (record { bytes = (n.recv net t.socket size).result.1 })))
        × (length (n.recv net t.socket size).result.1 ≤ size)
  unfolding read read_buffer native_socket Socket.read_result
  read-recv size k connected got word =
      let (all_stored, few) = n.recv-length net t.socket size k got in
      (
        rw (connected, got, to_int-fits k word, stored-all (n.recv net t.socket size).result.1 k all_stored) refl,
        omega arith,
      )

  -- close() leaves the number of the descriptor in the socket. When the system has given the number
  -- out again by then, the destructor of the socket closes the descriptor of the new owner.
  pub destroy-close :
      (fd : ℕ)
      → t.socket ≡ pos fd
      → (n.socket (close n net t all)).result ≡ pos fd
      → (n.is_open (n.socket (close n net t all)).net fd ≡ true)
        × (n.is_open (destroy n (n.socket (close n net t all)).net t) fd ≡ false)
  destroy-close fd at again =
      let opened = n.socket-opens (close n net t all) fd fd again in
      (
        ground (arith, opened.1),
        ground (arith, destroy_one n (n.socket (close n net t all)).net t fd fd at),
      )

  -- A connect that fails leaves the new descriptor open, and no socket has its number.
  pub connect_leaks :
      (host : List ℕ) (port fd m : ℕ)
      → is_connected t ≡ false
      → (n.socket net).result ≡ pos fd
      → (n.connect (n.socket net).net (pos fd) host port).result ≡ negsuc m
      → ((connect_to_host n net t host port).result ≡ (t, false))
        × (n.is_open net fd ≡ false)
        × (n.is_open (connect_to_host n net t host port).net fd ≡ true)
  unfolding connect_to_host connect_new
  connect_leaks host port fd m off made refused =
      let opened = n.socket-opens net fd fd made in
      rw (off, connect-made n net t host port fd made, refused, connect_new)
        (
          refl,
          opened.0,
          ground (arith, opened.1, n.connect-keeps (n.socket net).net (pos fd) host port fd),
        )

  -- A connect that succeeds gives the socket a new descriptor and closes the one that it had; the
  -- other descriptors stay as they are.
  pub connect_replaces :
      (host : List ℕ) (port old fd k j : ℕ)
      → t.socket ≡ pos (suc old)
      → (n.socket (close n net t all)).result ≡ pos fd
      → (n.connect (n.socket (close n net t all)).net (pos fd) host port).result ≡ pos k
      → ((connect_to_host n net t host port).result ≡ (record t { socket = pos fd }, true))
        × (n.is_open (connect_to_host n net t host port).net j
            ≡ (if fd == j then true else if suc old == j then false else n.is_open net j))
  unfolding connect_to_host connect_new
  connect_replaces host port old fd k j at made accepted =
      let opened = n.socket-opens (close n net t all) fd j made in
      rw
        (
          connected_positive t old at,
          connect-made n (close n net t all) t host port fd made,
          accepted,
          connect_new,
        )
        (
          refl,
          ground (
            arith,
            opened.1,
            close_one n net t (suc old) j at,
            n.connect-keeps (n.socket (close n net t all)).net (pos fd) host port j,
          ),
        )
