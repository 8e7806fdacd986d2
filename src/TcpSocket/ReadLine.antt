-- ===== src/TcpSocket/ReadLine.antt =====
-- src/TcpSocket.cpp: TcpSocket::readLine from its start to its return.
use ucxx.Base.{
  ◌<◌, ◌≡◌, ℕ, refl, List, [], ◌∷◌, ◌++◌, true, false, Option, none, some, if◌then◌else◌, length,
  All, codes,
}
use ucxx.Socket
use ucxx.TcpSocket.{TcpSocket, is_connected}
use ucxx.TcpSocket.Line.{
  Recv, got, error, Line, line, error_line, reading, read_line, kept, IsQuiet, read_line_lem,
}

-- What the caller has when the loop has ended: the socket, the text, and the calls of recv that are
-- still to come. `none`: it has not ended.
unfoldable pub returned : TcpSocket → Line → Option (TcpSocket × List ℕ × List Recv)
unfolding Socket.set_error
returned t (line text calls) = some (t, text, calls)
returned t (error_line text calls) =
    some (record t { base = Socket.set_error t.base (codes "Unable to read data") }, text, calls)
returned t (reading text) = none

-- `calls` is what recv brings on the native socket, which is read once.
unfoldable pub read_line_from : TcpSocket → ℕ → List Recv → Option (TcpSocket × List ℕ × List Recv)
read_line_from t size calls =
    if is_connected t then returned t (read_line size 0 [] calls) else some (t, [], calls)

-- readLine on a socket that is not connected returns "" and receives nothing. On one that is, as
-- long as the text is shorter than `size` characters, it reads up to a newline, which it takes and
-- drops with all carriage returns, and no call further; when an error comes first, it returns what
-- has been read, and sets the error of the socket. Until then it goes on, also at the end of the
-- stream: no number of calls ends it.
pub read_line_from-kept :
    (t : TcpSocket) (size : ℕ) (calls rest : List Recv)
    → All IsQuiet calls
    → length (kept calls) < size
    → (is_connected t ≡ false → read_line_from t size rest ≡ some (t, [], rest))
      × (is_connected t ≡ true
          → (read_line_from t size (calls ++ got b'\n' ∷ rest) ≡ some (t, kept calls, rest))
            × (read_line_from t size (calls ++ error ∷ rest)
                ≡ some (
                  record t { base = Socket.set_error t.base (codes "Unable to read data") },
                  kept calls,
                  rest,
                ))
            × (read_line_from t size calls ≡ none))
unfolding read_line_from returned
read_line_from-kept t size calls rest quiet short =
    let (ends, fails, goes_on) = read_line_lem size calls rest quiet short in
    (
      λ off. rw (off, read_line_from) refl,
      λ on. (
        rw (on, ends, read_line_from) refl,
        rw (on, fails, read_line_from) refl,
        rw (on, goes_on, read_line_from) refl,
      ),
    )
