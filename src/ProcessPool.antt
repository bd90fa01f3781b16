-- ===== src/ProcessPool.antt =====
-- The pool of ProcessPool/processpool.h: a parent that hands out connections, and the children that
-- accept and serve them.
pub mod Parent
pub mod Child
pub mod Tests
