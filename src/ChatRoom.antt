-- ===== src/ChatRoom.antt =====
-- The chat server of ChatRoom/MPserver.c: a parent that accepts the clients, and one child for each.
pub mod Parent
pub mod Child
pub mod Tests
