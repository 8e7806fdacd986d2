-- ===== src/TcpSocket.antt =====
-- src/TcpSocket.h, src/TcpSocket.cpp: a socket over the system's descriptors. Each method locks
-- m_mutex around single accesses of its members; here a method is one step. WIN32 differs in the
-- names of the calls only.
pub mod Host
pub mod Line
pub mod ReadLine
pub mod Connect
pub mod Laws
mod Tests
use ucxx.Base.{ℕ, List, [], Bool, true, false, Option, none, some, ltb, if◌then◌else◌, codes, take}
use ucxx.Base.Int.{ℤ, pos, negsuc, to_int}
use ucxx.ByteArray
use ucxx.ByteArray.{ByteArray}
use ucxx.Net.{Net, Stream, incoming, outgoing, all, Call}
use ucxx.Socket

-- The constructor leaves m_peerPort as it is: `none`.
pub record TcpSocket : Type 0 where
  pub base : Socket.Socket
  pub socket : ℤ
  pub peer_addr : List ℕ
  pub peer_port : Option ℕ

-- TcpSocket()
unfoldable pub create : TcpSocket
create = record {
  base = Socket.create Socket.tcp;
  socket = negsuc 0;
  peer_addr = [];
  peer_port = none;
}

unfoldable pub native_socket : TcpSocket → ℤ
native_socket t = t.socket

abbrev pub is_positive : ℤ → Bool
is_positive (pos n) = ltb 0 n
is_positive (negsuc n) = false

unfoldable pub is_connected : TcpSocket → Bool
is_connected t = is_positive t.socket

unfoldable pub set_peer_addr : TcpSocket → List ℕ → TcpSocket
set_peer_addr t addr = record t { peer_addr = addr }

unfoldable pub set_peer_port : TcpSocket → ℕ → TcpSocket
set_peer_port t p = record t { peer_port = some p }

abbrev fail : TcpSocket → List ℕ → TcpSocket
fail t text = record t { base = Socket.set_error t.base text }

module _ (n : Net) where
  -- TcpSocket(SOCKET_TYPE s)
  unfoldable pub of_native : n.State → ℤ → Call n.State TcpSocket
  of_native net s = record { net = n.set_timeout net s; result = record create { socket = s } }

  -- What readBuffer has stored, and its result. The result of recv, and of send below, is narrowed to
  -- an int.
  unfoldable pub read_buffer : n.State → TcpSocket → ℕ → Call n.State (TcpSocket × List ℕ × ℕ)
  read_buffer net t size =
      let received = n.recv net (native_socket t) size in
      if is_connected t
      then (elim (to_int received.result.0) [
        | negsuc _ ↦ record {
          net = received.net;
          result = (fail t (codes "Unable to read data"), received.result.1, 0);
        }
        | pos s ↦ record { net = received.net; result = (t, received.result.1, s) }
      ])
      else record { net = net; result = (t, [], 0) }

  unfoldable pub write_buffer : n.State → TcpSocket → List ℕ → ℕ → Call n.State (TcpSocket × ℕ)
  write_buffer net t data_pointer size =
      let sent = n.send net (native_socket t) (take size data_pointer) in
      if is_connected t
      then (elim (to_int sent.result) [
        | negsuc _ ↦ record { net = sent.net; result = (fail t (codes "Unable to send data"), 0) }
        | pos s ↦ record { net = sent.net; result = (t, s) }
      ])
      else record { net = net; result = (t, 0) }

  unfoldable pub available : n.State → TcpSocket → ℕ
  available net t =
      if is_connected t
      then (elim (n.pending net (native_socket t)) [ none ↦ 0 | some bytes ↦ bytes ])
      else 0

  unfoldable pub close : n.State → TcpSocket → Stream → n.State
  close net t stream = n.close (n.shutdown net (native_socket t) stream) (native_socket t)

  -- ~TcpSocket()
  unfoldable pub destroy : n.State → TcpSocket → n.State
  destroy net t = n.close (close net t all) t.socket

  unfoldable pub connect_new :
      n.State → TcpSocket → ℤ → List ℕ → ℕ → Call n.State (TcpSocket × Bool)
  connect_new net t sock host port =
      let connected = n.connect net sock host port in
      elim connected.result [
        | pos _ ↦ record { net = connected.net; result = (record t { socket = sock }, true) }
        | negsuc _ ↦ record { net = connected.net; result = (t, false) }
      ]

  -- Behind the test for an old connection.
  unfoldable pub connect_from : n.State → TcpSocket → List ℕ → ℕ → Call n.State (TcpSocket × Bool)
  connect_from net t host port =
      let made = n.socket net in
      elim made.result [
        | negsuc _ ↦ record {
          net = made.net;
          result = (fail t (codes "Unable to create a socket"), false);
        }
        | pos fd ↦ connect_new made.net t (pos fd) host port
      ]

  unfoldable pub connect_to_host :
      n.State → TcpSocket → List ℕ → ℕ → Call n.State (TcpSocket × Bool)
  connect_to_host net t host port =
      connect_from (if is_connected t then close net t all else net) t host port

  -- Socket::read and Socket::write
  unfoldable pub read : n.State → TcpSocket → ℕ → Call n.State (TcpSocket × Option ByteArray)
  read net t size =
      let got = read_buffer net t size in
      record {
        net = got.net;
        result = (got.result.0, Socket.read_result got.result.1 got.result.2);
      }

  unfoldable pub write : n.State → TcpSocket → ByteArray → Call n.State (TcpSocket × ℕ)
  write net t ba =
      let (data_pointer, size) = Socket.write_argument ba in write_buffer net t data_pointer size
