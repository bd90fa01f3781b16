-- ===== src/ThreadPoolCpp.antt =====
-- The C++11 thread pool of ThreadPoolCpp/ThreadPool.h.
pub mod Workers
pub mod Steps
pub mod Invariant
pub mod Drain
pub mod Tests
