-- ===== src/Boost.antt =====
-- The third-party code that the programs call, as interfaces: operations and documented behaviour.
pub mod CircularBuffer
pub mod Threads
pub mod Asio
pub mod Queues
