-- ===== src/Socket.antt =====
-- src/Socket.h, src/Socket.cpp: the part of a socket that does not depend on its kind.
pub mod WinSock
mod Tests
use ucxx.Base.{ℕ, List, [], Bool, true, false, Option}
use ucxx.ByteArray
use ucxx.ByteArray.{ByteArray}

pub data Protocol : Type 0 where
  tcp udp : Protocol

pub record Socket : Type 0 where
  pub protocol : Protocol
  pub error : Bool
  pub error_text : List ℕ

-- Socket(Protocol protocol)
unfoldable pub create : Protocol → Socket
create protocol = record { protocol = protocol; error = false; error_text = [] }

unfoldable pub set_error : Socket → List ℕ → Socket
set_error s text = record s { error = true; error_text = text }

-- The methods over those of the derived class: `buffer` is what `readBuffer` has stored, and
-- `bytes` what it has returned. `none`: the rest of the buffer is not initialised.
unfoldable pub read_result : List ℕ → ℕ → Option ByteArray
read_result buffer bytes = ByteArray.from_buffer buffer bytes

unfoldable pub write_argument : ByteArray → List ℕ × ℕ
write_argument ba = (ByteArray.const_data ba 0, ByteArray.size ba)
