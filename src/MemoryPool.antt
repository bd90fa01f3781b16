-- ===== src/MemoryPool.antt =====
-- The allocator of MemoryPool/MemoryPool.h, and the stack of MemoryPool/StackAlloc.h.
pub mod Blocks
pub mod Stack
pub mod Tests
