-- ===== src/Lib.antt =====
-- Verification of uvcc, the C++ binding of libuv in src/include/uvcc.
--
-- uvcc wraps the structures of libuv in counted instances. A variable of class handle, request, loop
-- or buffer is a pointer to such an instance; copying the variable takes a reference, destroying it
-- gives one back, and the instance is destroyed with its last reference. libuv's callbacks and the
-- handles themselves hold references too: a handle to the loop that it runs on, a handle to itself
-- while it reads. The development models this life of instances and the code that depends on it.
--
-- Files:
-- - Prelude: names of the libraries passed on, Boolean tests, integers, lists by native numbers.
-- - Utility: src/include/uvcc/utility.hpp. TypeLists has the templates over type lists; RefCount has
--   `ref_count`, as single operations and as schedules of the atomic accesses of several threads;
--   Spinlock has `spinlock`; Storage has `aligned_storage`, `type_storage` and `union_storage`;
--   AnyPtr has `any_ptr`.
-- - Runtime: the heaps of instances by address, the calls of libuv, and the monad of the code: a run
--   ends with a result, an exception, a fault (the use of a deleted instance, or an index out of range)
--   or without fuel. Counts has the arithmetic of the counts, Ends the rule for one piece of code
--   behind another, Fixtures the worlds of the tests.
-- - References: the special member functions of the four classes and programs of them.
-- - Request, Loop, Handle, Buffer: the instances of src/include/uvcc/request-base.hpp, loop.hpp,
--   handle-base.hpp and buffer.hpp: `ref`, `unref` and what the last `unref` does.
-- - Io: src/include/uvcc/handle-io.hpp, the commands that start, stop, pause and resume reading, and
--   the virtual functions behind them for streams and UDP sockets; Callbacks has what libuv calls while
--   a handle reads.
-- - Create: the constructors of the handles of handle-stream.hpp, handle-udp.hpp, handle-misc.hpp and
--   handle-fs.hpp in src/include/uvcc: the instance that each makes, its class and its links; Opening
--   has the constructor of a file that opens it in the background.
-- - Stream: `listen`, `accept` and the names of sockets and pipes, of
--   src/include/uvcc/handle-stream.hpp.
-- - Watch, Timer, Async: the handles of src/include/uvcc/handle-misc.hpp that call back: idle, prepare,
--   check, poll and signal handles and the `fs_event` of handle-fs.hpp; timers, with those that fire
--   once; `async`, with the reference of each signal sent.
-- - Process: the class `process` of handle-misc.hpp: the standard streams that it prepares for its
--   child, with the pipes that it creates for them, its options, its start and its end.
-- - EventLoop: `run` and `walk` of src/include/uvcc/loop.hpp.
-- - Transfer: src/include/uvcc/request-stream.hpp and request-udp.hpp: the requests that connect, write,
--   shut down and send, and the callbacks that complete them.
-- - File: src/include/uvcc/handle-fs.hpp, the chain of reads of a `file`.
-- - FileWrite, FileRead, SendFile, Close: src/include/uvcc/request-fs.hpp, the requests `fs::write`,
--   `fs::read`, `fs::sendfile` and `fs::close`.
-- - Scheme: the requests of src/include/uvcc/request-fs.hpp, request-dns.hpp and request-misc.hpp
--   that work in one scheme: a reference taken, the call of libuv, the callback that gives it back.
-- - Endian: src/include/uvcc/endian.hpp, the conversion of 64-bit numbers on Windows.
-- - Output: src/include/uvcc/request-io.hpp, the request that is one of a write, a send or a file write.
-- Each component's Tests module runs its theorems on concrete data.
--
-- Bounds. A count is a `long`, taken as 64 bits; its laws suppose fewer than 2^64 references. The one
-- loop that may not end is that of the loop's destructor: it is given fuel, and Loop.Draining says that
-- more fuel than the rounds that answer something else than 0 is enough. Two sums
-- wrap in the model as in the code: that of `allocation_size`, a `size_t`, and that of
-- `ensure_stdio_number`, an `unsigned`.
--
-- libuv is not modelled: its answers are a function of the calls made before, a parameter of every
-- definition that uses them. The user's callbacks are events of the trace where they tell of a
-- destruction, and elsewhere parameters, with what the theorems ask of them as hypotheses.
--
-- Not modelled: `io::guess_handle`; network addresses and threads, which only call the system;
-- functions that only call libuv; getters that only read a field; debug output; memory orders weaker
-- than sequential consistency.
pub mod Prelude
pub mod Endian
pub mod Close
pub mod EventLoop
pub mod Utility
pub mod Runtime
pub mod References
pub mod Request
pub mod Loop
pub mod Handle
pub mod Buffer
pub mod Io
pub mod Create
pub mod Stream
pub mod Watch
pub mod Timer
pub mod Async
pub mod Transfer
pub mod FileWrite
pub mod FileRead
pub mod Process
pub mod SendFile
pub mod Scheme
pub mod Output
pub mod File
