-- ===== src/TcpServer/Tests.antt =====
-- Runs of src/TcpServer.cpp over the instance of the sockets interface, and its laws there.
use ucxx.Base.{ℕ, ◌≡◌, refl, [], ◌∷◌, true, false, none, some}
use ucxx.Base.Int.{pos}
use ucxx.Socket
use ucxx.Net.{simple_net, Table}
use ucxx.TcpSocket
use ucxx.TcpSocket.{TcpSocket}
use ucxx.TcpServer.{
  TcpServer, create, is_listening, native_socket, backlog, listen, listen_any, listen_new,
  listen_bound, accept, accept_ready, close,
}
use ucxx.TcpServer.Laws.{Listened, listen-Listened}

running : ℕ
unfolding create is_listening native_socket backlog listen listen_any listen_new listen_bound accept
    accept_ready close TcpSocket.of_native TcpSocket.native_socket TcpSocket.create TcpSocket.close
    TcpSocket.destroy TcpSocket.set_peer_addr TcpSocket.set_peer_port Socket.create
running = 0

abbrev online : Table
online = record { opened = λ _. false; supply = 3 ∷ 4 ∷ []; arriving = []; broken = false }

abbrev refused : Table
refused = record online { broken = true }

abbrev listening : TcpServer
listening = (listen_any simple_net (pos 128) online create 80).result.0

runs :
    ((listen_any simple_net (pos 128) online create 80).result.1 ≡ true)
    × ((listen_any simple_net (pos 128) online listening 80).result.1 ≡ false)
    × ((listen_any simple_net (pos 128) refused create 80).result ≡ (create, false))
    × (native_socket listening ≡ pos 3)
    × (accept simple_net (pos 128) 1024 online create
        ≡ some (record { net = online; result = none }))
    × (accept simple_net (pos 128) 3 online listening ≡ none)
unfolding running
runs = (refl, refl, refl, refl, refl, refl)

listen-Listened_example :
    Listened simple_net
      (pos 128)
      create
      refused
      []
      80
      3
      (listen simple_net (pos 128) refused create [] 80)
listen-Listened_example = listen-Listened simple_net (pos 128) create refused [] 80 3

abbrev three : TcpSocket
three = record {
  base = record { protocol = Socket.tcp; error = false; error_text = [] };
  socket = pos 3;
  peer_addr = [];
  peer_port = none;
}
