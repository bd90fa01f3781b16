-- ===== src/QueueService.antt =====
-- The program under QueueServiceSystem: customers, the windows of a bank that serve them, and the
-- events that drive the simulation.
pub mod Queue
pub mod System
pub mod Tests
