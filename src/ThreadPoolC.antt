-- ===== src/ThreadPoolC.antt =====
-- The thread pool in the style of C, of ThreadPoolC/ThreadPool.cpp and ThreadPool.h.
pub mod Threads
pub mod Steps
pub mod Invariant
pub mod Stopping
pub mod Ending
pub mod Tests
