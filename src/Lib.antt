-- ===== src/Lib.antt =====
-- Verification of the buffers, queues and UDP programs of this repository.
--
-- The repository has three queues that threads share, and programs that put what a UDP socket
-- receives into one of them and read it out again:
--
-- * `bounded_buffer` (include/bounded_buffer.hh) is BoundedBuffer: its methods by their names, as
--   one thread sees them. BoundedBuffer/Window is about what the buffer holds,
--   BoundedBuffer/Reading about what pop_back gives, BoundedBuffer/Refine compares the class with
--   a window of elements, BoundedBuffer/Monitor has push_front and pop_back as steps of two
--   threads under `m_mutex` and `m_not_empty`, and BoundedBuffer/Crowd those and empty, get_size
--   and get_capacity as steps of any number of threads: push_front reads the container in one
--   step and writes it in another.
-- * `queue` (include/queue.hh) is WorkQueue. WorkQueue/Fifo compares it with a first-in first-out
--   list; WorkQueue/Counter is about `m_unread` when it is wrong, WorkQueue/Monitor has push,
--   wait_and_pop and try_pop as steps of two threads, and WorkQueue/Crowd those and empty,
--   get_size and get_capacity as steps of any number of threads. Threads has what is common to
--   both crowds. Printing has the loop of both `print` methods.
-- * `SynchronisedQueue` (include/SynchronisedQueue.hh) is SyncQueue (`Size` is size_of) for calls
--   that do not overlap, and SyncQueue/Threads for the steps of one producer and one consumer,
--   each access of shared state a step. What C++ calls a data race, since Enqueue takes no lock,
--   is an interleaving of these steps.
-- * `Decoder` (include/decoder.hh, src/decoder.cxx) is Decoder. read_data and read_queue call
--   themselves without end: read_once and read_queue_once are one round, and read_data in the
--   model takes the list of what the producer pushes between the rounds, one batch for each
--   round. Decoder/Gathering has the thread that start_gathering makes as steps, interleaved with
--   those of the threads of BoundedBuffer/Crowd.
-- * `Server` (include/server.hh, src/server.cxx) is Server. The io_service takes up one handler
--   after the other: handle_data starts a receive, decode_data runs when it has ended and pushes
--   the first word into the bounded_buffer that the Decoder reads. Server.listen runs the
--   handlers in one thread, and Server/Pool in all the threads that listen makes: the write of
--   the size, the push, the read, the write and the test of the count, and the stop or the next
--   receive are steps, and a thread may still be on its return when another takes up the next handler.
-- * src/buf-server.cxx is BufServer (a Server over a buffer of 1000), src/buf-lockfree.cxx is
--   BufLockfree and src/buf-moody.cxx is BufMoody (two workers and `main` over a lock-free queue,
--   as steps), src/buf-sync.cxx is BufSync (its handlers over a SynchronisedQueue one after the
--   other) and BufSync/Program (`main` and the workers as steps), src/buf-main.cxx is BufMain (a
--   demonstration of the circular buffer), and src/buf-test.cxx is BufTest (`main` and four
--   workers that print under a lock: each piece of output a step).
--
-- How code becomes definitions. A call comes to an `Outcome` (Prelude/Outcomes): a value, a wait
-- that lasts, an exception, `exit`, or undefined behaviour. An `int` that may wrap or overflow is
-- written out (Prelude/Ints). A program with threads is a step relation `Step` on a record
-- `System` with a program point for each thread; `Reach` are the states that steps lead to. Fields
-- for what was pushed, printed or returned so far only record the steps.
--
-- What is not code of the repository is a record of operations with their documented behaviour,
-- and a parameter: boost::circular_buffer (Boost/CircularBuffer), mutex and condition
-- (Boost/Threads; Condition is for one thread that waits, Conditions for many), io_service and
-- socket (Boost/Asio), boost::lockfree::spsc_queue and the BlockingReaderWriterQueue of
-- include/readerwriterqueue.h, a copy of the moodycamel library (Boost/Queues). Samples/Buffers,
-- Samples/Services and Samples/Crowds implement every one of them, and the tests beside them run
-- the code on these.
--
-- Bounds and fuel. `Server.run` counts handlers: one for the start, one for each receive and one
-- more to see that nothing is left are enough for a list of receives. All other loops are
-- structural. `size_t` is 64 bits and `int` 32 bits wide; the counters of buf-lockfree, of
-- buf-moody and of buf-sync are taken to stay below 2 ^ 31.
--
-- Not modelled: the lines that only print a fixed text or a thread, the locks that only keep such
-- lines whole (but for buf-test's), code in comments, `print` of the two classes while other
-- threads push, the stack that client_reader, read_data and read_queue use up by calling
-- themselves without end, and the build.
pub mod Prelude
pub mod Boost
pub mod Printing
pub mod Threads
pub mod BoundedBuffer
pub mod WorkQueue
pub mod SyncQueue
pub mod Decoder
pub mod Server
pub mod BufServer
pub mod BufLockfree
pub mod BufMain
pub mod BufSync
pub mod BufMoody
pub mod BufTest
pub mod Samples
