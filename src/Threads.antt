-- ===== src/Threads.antt =====
-- What the components with any number of threads share: families of program points, indexed by the
-- thread.
pub mod Locks
pub mod Guarded
pub mod Counts
pub mod Descent
