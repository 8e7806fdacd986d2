-- ===== src/Net.antt =====
-- The sockets interface of the system that src/TcpSocket.cpp and src/TcpServer.cpp call. It is not
-- code of the repository: the operations are parameters, and the fields behind them state what
-- their documentation promises.
mod Interface
pub use Interface.{Net, Stream, incoming, outgoing, all, Call}
mod Instance
pub use Instance.{simple_net, Table}
