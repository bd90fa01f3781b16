-- ===== src/HttpServer.antt =====
-- HttpServer/: the connection object of http_conn.h and http_conn.cpp, the thread pool of
-- threadpool.h and the event loop of main.cpp.
pub mod Run
pub mod CString
pub mod Conn
pub mod Line
pub mod Request
pub mod Os
pub mod Reader
pub mod Response
pub mod Transfer
pub mod Pool
pub mod Main
pub mod Tests
