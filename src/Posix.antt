-- ===== src/Posix.antt =====
-- The POSIX threads interface that src/Mutex.cpp and src/Sema.cpp call: recursive mutexes and
-- counting semaphores. It is not code of the repository: the operations are parameters, and the
-- fields behind them state what their documentation promises. A thread is a number.
mod Instance
pub use Instance.{simple_posix}
pub use Interface.{Posix}
mod Interface
