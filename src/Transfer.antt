-- ===== src/Transfer.antt =====
-- src/ByteArraySerializer.cpp and src/TcpSocket.cpp together: a value that one side serializes and
-- writes to a socket, and what the other side reads and deserializes.
mod Tests
use ucxx.Base.{Option, arith, take}
use ucxx.ByteArray
use ucxx.ByteArray.{ByteArray}
use ucxx.Net.{Net}
use ucxx.Serializer.State.{Serializer}
use ucxx.Socket
use ucxx.TcpSocket.{TcpSocket}
use ucxx.Variant.{Variant}
