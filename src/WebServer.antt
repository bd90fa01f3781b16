-- ===== src/WebServer.antt =====
-- The web server of WebServer/, without the calls of Boost.Asio.
pub mod Parser
pub mod Resources
pub mod Handlers
pub mod Tests
