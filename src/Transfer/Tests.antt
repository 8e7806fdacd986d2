-- ===== src/Transfer/Tests.antt =====
-- A value that goes through a socket.
use ucxx.Base.{ℕ, List, [], ◌∷◌, false, some}
use ucxx.Base.Int.{pos}
use ucxx.ByteArray
use ucxx.ByteArray.{ByteArray}
use ucxx.Net.{Table}
use ucxx.Serializer.Encode.{encode}
use ucxx.Serializer.Push.{push_value, push_boolean}
use ucxx.Serializer.Raw.{push_raw_value}
use ucxx.Serializer.Signature.{push_type_signature, type_signature}
use ucxx.Serializer.State.{Serializer, init_with}
use ucxx.Serializer.Storable.{IsStorable}
use ucxx.Socket
use ucxx.TcpSocket.{TcpSocket, is_connected}

running : ℕ
unfolding push_value push_boolean push_raw_value push_type_signature type_signature encode init_with
    ByteArray.append_byte ByteArray.append_buffer is_connected IsStorable
running = 0

-- One of the two bytes has arrived.
abbrev arrived : Table
arrived = record { opened = λ _. false; supply = []; arriving = b'B' ∷ []; broken = false }

abbrev five : TcpSocket
five = record {
  base = record { protocol = Socket.tcp; error = false; error_text = [] };
  socket = pos 5;
  peer_addr = [];
  peer_port = some 80;
}

abbrev sent : Serializer
sent = record { byte_array = record { bytes = b'B' ∷ 1 ∷ [] }; index = 0 }

abbrev lacking : List ℕ
lacking = 1 ∷ []
