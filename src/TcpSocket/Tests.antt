-- ===== src/TcpSocket/Tests.antt =====
-- Runs of src/TcpSocket.cpp over the instance of the sockets interface, and its laws there.
use ucxx.Base.{
  codes, Option, none, if◌then◌else◌, ℕ, ◌≡◌, refl, List, [], ◌∷◌, ◌++◌, true, false, some, arith,
  ◌==◌,
}
use ucxx.Base.Int.{pos}
use ucxx.ByteArray
use ucxx.ByteArray.{ByteArray}
use ucxx.Socket
use ucxx.Net.{simple_net, Table, all}
use ucxx.TcpSocket.{
  TcpSocket, create, of_native, native_socket, is_connected, read_buffer, write_buffer, available,
  read, write, close, destroy, connect_to_host, connect_from, connect_new,
}
use ucxx.TcpSocket.Host.{host_name_to_ip, first_address}
use ucxx.TcpSocket.Line.{Recv, got, eof, error, line, reading, read_line}
use ucxx.TcpSocket.ReadLine.{read_line_from, read_line_from-kept}
use ucxx.TcpSocket.Laws.{destroy-close}
use ucxx.TcpSocket.Connect.{net_before, Connected, connect-Connected}

running : ℕ
unfolding create of_native native_socket is_connected read_buffer write_buffer available read write
    close destroy connect_to_host connect_from connect_new read_line Socket.create Socket.set_error
    Socket.read_result Socket.write_argument ByteArray.from_buffer ByteArray.const_data
    ByteArray.size
running = 0

abbrev online : Table
online = record {
  opened = λ _. false;
  supply = 3 ∷ 3 ∷ 4 ∷ [];
  arriving = b'h' ∷ b'i' ∷ [];
  broken = false;
}

abbrev offline : Table
offline = record online { broken = true }

-- A socket over descriptor 5.
abbrev five : TcpSocket
five = record {
  base = record { protocol = Socket.tcp; error = false; error_text = [] };
  socket = pos 5;
  peer_addr = [];
  peer_port = some 80;
}

runs :
    ((read simple_net online five 1).result ≡ (five, some (record { bytes = b'h' ∷ [] })))
    × ((read simple_net online create 1).result.1 ≡ some ByteArray.empty)
    × ((write simple_net online five (record { bytes = 1 ∷ 2 ∷ [] })).result ≡ (five, 2))
    × ((write simple_net online create (record { bytes = 1 ∷ 2 ∷ [] })).result.1 ≡ 0)
    × (available simple_net online five ≡ 2)
    × ((connect_to_host simple_net online create [] 80).result.1 ≡ true)
    × (is_connected (connect_to_host simple_net online create [] 80).result.0 ≡ true)
    × ((connect_to_host simple_net offline create [] 80).result.1 ≡ false)
    × (is_connected (of_native simple_net online (pos 0)).result ≡ false)
unfolding running
runs = (refl, refl, refl, refl, refl, refl, refl, refl, refl)

line_runs :
    (read_line 256 0 [] (got b'h' ∷ eof ∷ got b'\r' ∷ got b'\n' ∷ got b'x' ∷ [])
      ≡ line (b'h' ∷ []) (got b'x' ∷ []))
    × (read_line 1 0 [] (got b'h' ∷ got b'i' ∷ []) ≡ line (b'h' ∷ []) (got b'i' ∷ []))
    × (read_line 256 0 [] (eof ∷ eof ∷ eof ∷ []) ≡ reading [])
unfolding running
line_runs = (refl, refl, refl)

abbrev quiet : List Recv
quiet = got b'h' ∷ eof ∷ got b'\r' ∷ []

read_line_from-kept_example :
    (is_connected five ≡ false → read_line_from five 256 (eof ∷ []) ≡ some (five, [], eof ∷ []))
    × (is_connected five ≡ true
        → (read_line_from five 256 (quiet ++ got b'\n' ∷ eof ∷ [])
            ≡ some (five, b'h' ∷ [], eof ∷ []))
          × (read_line_from five 256 (quiet ++ error ∷ eof ∷ [])
              ≡ some (
                record five { base = Socket.set_error five.base (codes "Unable to read data") },
                b'h' ∷ [],
                eof ∷ [],
              ))
          × (read_line_from five 256 quiet ≡ none))
read_line_from-kept_example =
    read_line_from-kept five 256 quiet (eof ∷ []) (refl, (tt, (refl, tt))) (omega arith)

abbrev three : TcpSocket
three = record five { socket = pos 3 }

abbrev one_open : Table
one_open = record online { opened = λ i. i == 3 }

destroy-close_example :
    (simple_net.is_open (simple_net.socket (close simple_net one_open three all)).net 3 ≡ true)
    × (simple_net.is_open
          (destroy simple_net (simple_net.socket (close simple_net one_open three all)).net three)
          3
        ≡ false)
unfolding running
destroy-close_example = destroy-close simple_net one_open three 3 refl refl

-- A socket with a connection, and a connect that fails.
abbrev unreachable : Table
unreachable = record offline { opened = λ i. i == 3 }

connect-Connected_example :
    Connected simple_net unreachable three
      (net_before simple_net unreachable three)
      []
      80
      4
      (connect_to_host simple_net unreachable three [] 80)
connect-Connected_example = connect-Connected simple_net unreachable three [] 80 4

-- A resolver that knows one name.
abbrev resolver : List ℕ → Option (List ℕ)
resolver (c ∷ []) = if c == b'h' then some (7 ∷ 8 ∷ []) else none
resolver _ = none

host_runs :
    (host_name_to_ip resolver (λ a. a ∷ []) (b'h' ∷ []) ≡ 7 ∷ [])
    × (host_name_to_ip resolver (λ a. a ∷ []) (b'h' ∷ 0 ∷ b'x' ∷ []) ≡ 7 ∷ [])
    × (host_name_to_ip resolver (λ a. a ∷ []) (b'x' ∷ []) ≡ [])
unfolding host_name_to_ip first_address
host_runs = (refl, refl, refl)
