-- ===== src/TcpServer.antt =====
-- src/TcpServer.h, src/TcpServer.cpp: a listening socket. Each method locks m_mutex around single
-- accesses of its members; here a method is one step. SOMAXCONN and FD_SETSIZE are parameters.
pub mod Laws
mod Tests
use ucxx.Base.{ℕ, zero, List, [], Bool, true, false, Option, none, some, ltb}
use ucxx.Base.Int.{ℤ, pos, negsuc}
use ucxx.Net.{Net, all, Call}
use ucxx.TcpSocket
use ucxx.TcpSocket.{TcpSocket, is_positive}

-- m_pServerSocket, `none` where it is null.
pub record TcpServer : Type 0 where
  pub server_socket : Option TcpSocket
  pub max_pending_connections : ℤ

unfoldable pub create : TcpServer
create = record { server_socket = none; max_pending_connections = pos 0 }

unfoldable pub set_max_pending_connections : TcpServer → ℤ → TcpServer
set_max_pending_connections s c = record s { max_pending_connections = c }

unfoldable pub is_listening : TcpServer → Bool
is_listening s = elim s.server_socket [ none ↦ false | some t ↦ true ]

unfoldable pub native_socket : TcpServer → ℤ
native_socket s = elim s.server_socket [ none ↦ negsuc 0 | some t ↦ TcpSocket.native_socket t ]

module _ (n : Net) (somaxconn : ℤ) where
  unfoldable pub backlog : TcpServer → ℤ
  backlog s = elim (is_positive s.max_pending_connections) [
    | true ↦ s.max_pending_connections
    | false ↦ somaxconn
  ]

  -- Behind the call of bind, and behind that of socket.
  unfoldable pub listen_bound : n.State → TcpServer → ℤ → Call n.State (TcpServer × Bool)
  listen_bound net s sock =
      let listened = n.listen net sock (backlog s) in
      elim listened.result [
        | pos zero ↦
            let made = TcpSocket.of_native n listened.net sock in
            record {
              net = made.net;
              result = (record s { server_socket = some made.result }, true);
            }
        | _ ↦ record { net = n.close listened.net sock; result = (s, false) }
      ]

  unfoldable pub listen_new : n.State → TcpServer → ℤ → List ℕ → ℕ → Call n.State (TcpServer × Bool)
  listen_new net s sock host port =
      let bound = n.bind net sock host port in
      elim bound.result [
        | negsuc _ ↦ record { net = n.close bound.net sock; result = (s, false) }
        | pos _ ↦ listen_bound bound.net s sock
      ]

  -- An empty host name stands for INADDR_ANY.
  unfoldable pub listen : n.State → TcpServer → List ℕ → ℕ → Call n.State (TcpServer × Bool)
  listen net s host port =
      let made = n.socket net in
      elim (is_listening s) [
        | true ↦ record { net = net; result = (s, false) }
        | false ↦ elim made.result [
          | negsuc _ ↦ record { net = made.net; result = (s, false) }
          | pos fd ↦ listen_new made.net s (pos fd) host port
        ]
      ]

  unfoldable pub listen_any : n.State → TcpServer → ℕ → Call n.State (TcpServer × Bool)
  listen_any net s port = listen net s [] port

  unfoldable pub accept_ready : n.State → ℤ → Call n.State (Option TcpSocket)
  accept_ready net sock =
      let accepted = n.accept net sock in
      elim accepted.result.0 [
        | negsuc _ ↦ record { net = accepted.net; result = none }
        | pos fd ↦
            let made = TcpSocket.of_native n accepted.net (pos fd) in
            record {
              net = made.net;
              result = some (
                  TcpSocket.set_peer_port (TcpSocket.set_peer_addr made.result accepted.result.1)
                    accepted.result.2);
            }
      ]

  module _ (fd_setsize : ℕ) where
    -- `none`: FD_SET of a descriptor that an fd_set has no place for, which is undefined behaviour.
    unfoldable pub accept : n.State → TcpServer → Option (Call n.State (Option TcpSocket))
    accept net s =
        elim (is_listening s) [
          | false ↦ some (record { net = net; result = none })
          | true ↦ elim (native_socket s) [
            | negsuc _ ↦ some (record { net = net; result = none })
            | pos fd ↦
                let selected = n.select net (pos fd) in
                elim (ltb fd fd_setsize) [
                  | false ↦ none
                  | true ↦ elim (is_positive selected.result) [
                    | false ↦ some (record { net = selected.net; result = none })
                    | true ↦ some (accept_ready selected.net (pos fd))
                  ]
                ]
          ]
        ]

  unfoldable pub close : n.State → TcpServer → Call n.State TcpServer
  close net s = elim s.server_socket [
    | none ↦ record { net = net; result = s }
    | some t ↦ record {
      net = TcpSocket.destroy n (TcpSocket.close n net t all) t;
      result = record s { server_socket = none };
    }
  ]

  -- ~TcpServer()
  unfoldable pub destroy : n.State → TcpServer → n.State
  destroy net s = elim s.server_socket [ none ↦ net | some t ↦ TcpSocket.destroy n net t ]
