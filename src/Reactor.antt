-- ===== src/Reactor.antt =====
-- The reactor of MyReactor/reactor.cpp.
pub mod Session
pub mod Clients
pub mod Tests
