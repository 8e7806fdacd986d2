-- ===== src/Lib.antt =====
-- ucxx: a C++ library of portable utilities.
--
-- The program's parts. A Variant (src/Variant.h) holds a Boolean, an int, a double, a string, a list or
-- a map of Variants; it prints and parses them with the functions of src/StringUtils.h. A
-- ByteArraySerializer (src/ByteArraySerializer.h) writes Variants to a ByteArray (src/ByteArray.h) and
-- reads them back. Mutex, Semaphore (src/Sema.h) and Thread wrap the operating system's; a Queue
-- (src/Queue.h) is a std::queue that threads share, behind a Mutex and a Semaphore. A TcpSocket is a
-- Socket over a descriptor of the system, and a TcpServer listens on one and accepts others.
--
-- Which file models what:
--   Base         numbers, lists, ints in two's complement, words as bytes, families over threads.
--   ByteArray    src/ByteArray.cpp; char is a number below 256. An access outside of the buffer is
--                `none`: the source does not test, and it is undefined behaviour there.
--   StringUtils  src/StringUtils.cpp with std::string's searches and npos; Number is stringToNumber and
--                numberToString with the formatted input and output of an int (the C locale).
--   Variant      src/Variant.h, src/Variant.cpp; a double is the number that its 64 bits are. What
--                depends on floating point is the record Double: conversions, printing and reading.
--                Keys and Containers are std::map by its keys' order, and std::list; Assignments fills a
--                map, and MapView is what a client sees of it, a quotient. Memory has the objects
--                that a Variant owns, by their addresses, and what new and delete do to them.
--   Serializer   src/ByteArraySerializer.cpp. State is the object, and what a read ends in; Raw is
--                pushRawValue and popRawValue; Signature, Push and Pop are the functions of these names;
--                Encode is the format that the functions write. `index` is a 32-bit unsigned.
--                Interface is src/IVariantSerializer.h with what its clients rely on, which
--                Implementation shows of ByteArraySerializer; Canonical is about the bytes of a map.
--   Posix        the calls of pthread mutexes and POSIX semaphores, a record of operations and laws, and
--                an instance of it.
--   Mutex        src/Mutex.cpp, Mutex and MutexLocker; Win32 is its WIN32 branches over the calls of
--                Windows, a record of operations and laws, with Same beside the POSIX branches and
--                Abandoned for an owner that has been terminated.
--   Sema         src/Sema.cpp: Counter is what all of it promises; Unix, Apple and Win32 are its three
--                branches. Apple and Win32 have any number of threads in wait, notify and value, one
--                access of the shared state at a time; the calls of Windows are a record of operations
--                and laws. Deadline has the absolute times of Semaphore::wait and Thread::sleep.
--   Queue        src/Queue.h. Effects has each method as a sequence of steps, one call of the mutex, the
--                semaphore or the std::queue each; System interleaves any number of threads.
--   Thread       src/Thread.cpp: threadRunner and the threads that call start, isRunning, terminate and
--                join, one call of the mutex or the semaphore at a time. Invariant and Clients are what
--                the steps keep, Moves and Progress how a thread goes on; Win32 is the thread of
--                Windows, which is created suspended; Priority has the tables of the priorities.
--   Net          the system's socket calls, a record of operations and laws, and an instance of it.
--   Socket       src/Socket.cpp, the base class; WinSock is the start and the end of the library that
--                Windows needs.
--   TcpSocket    src/TcpSocket.cpp; Line is the loop of readLine, over the calls of recv in their order,
--                and ReadLine the whole of it; Host is hostNameToIp, over a resolver; Connect is
--                connectToHost on every branch.
--   TcpServer    src/TcpServer.cpp.
--   Transfer     a value that one side serializes and writes to a socket, and another reads.
--
-- Fuel. popValue recurses once for each level of nesting, and each level reads at least one byte, the
-- signature: as much fuel as there are bytes left, and one more, is enough. A thread's own steps are at
-- most eight.
--
-- Bounds. Sizes and lengths are numbers; `% 2 ^ 32` and `% 2 ^ 64` are written where the source casts or
-- wraps. A list or a map is assumed to hold fewer than 2^64 elements, as size_t does.
--
-- Not modelled: the sockets under WIN32, which are a call of the system each; the destructors of Semaphore, Mutex and Thread, and an object that is destroyed while another thread
-- uses it; threads that share one socket. m_count of the __APPLE__ semaphore is assumed not to start
-- below zero, and not to overflow.
pub mod Base
pub mod ByteArray
pub mod StringUtils
pub mod Variant
pub mod Serializer
pub mod Posix
pub mod Mutex
pub mod Sema
pub mod Queue
pub mod Thread
pub mod Net
pub mod Socket
pub mod TcpSocket
pub mod TcpServer
pub mod Transfer
