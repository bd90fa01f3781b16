-- ===== src/Lib.antt =====
-- C-Project: small servers and libraries in C and C++. This library models the parts that keep
-- state of their own, and shows what makes them correct.
--
-- Parts and files (paths from the repository's root):
--
-- HttpServer/ is an HTTP server. `main` (HttpServer/main.cpp) waits for events; it accepts clients,
-- reads their requests and hands them to a pool of threads (HttpServer/threadpool.h), which call
-- `http_conn::process` (HttpServer/http_conn.cpp).
--   HttpServer/Conn       the fields and constants of `http_conn`, and `init ()`
--   HttpServer/Line       `parse_line`, `get_line`
--   HttpServer/Request    `parse_request_line`, `parse_headers`, `parse_content`
--   HttpServer/Reader     `process_read`, `do_request`
--   HttpServer/Response   `add_response`, the functions on it, and `process_write`
--   HttpServer/Transfer   `read`, `write`, `close_conn`, `init`, `unmap`, `process`
--   HttpServer/Pool       `threadpool` and the semaphore of locker.h, as steps of its threads
--   HttpServer/Main       the event loop
-- A function that reads or writes a buffer runs in `Run` (HttpServer/Run): it returns, or stops at
-- an access outside a buffer. Bytes are numbers, a pointer into the read buffer is an offset, and
-- the functions of <string.h> and <stdlib.h> that the source calls are in HttpServer/CString.
--
-- QueueServiceSystem/ simulates the windows of a bank.
--   QueueService/Queue    `Queue<T>` of queue.h on a heap of nodes
--   QueueService/System   `QueueSystem` of queue_system.h, with its windows, customers and events,
--                         on the contents of the two queues
--
-- ProcessPool/processpool.h is a pool of processes.
--   ProcessPool/Parent    the constructor and `run_parent`
--   ProcessPool/Child     `run_child`, the class of the connections a parameter
-- ProcessPool/CGIserver.cpp is a server on it that runs programs.
--   CgiServer             `CGI_conn`
--
-- ChatRoom/MPserver.c is a chat server with a process for each client.
--   ChatRoom/Parent       the loop of `main`
--   ChatRoom/Child        `run_child`, and the memory that the children share
--
-- ChatRoom/server.c is a chat server of one process.
--   PollServer            its table of descriptors and users, and the loop of `main`
--
-- ThreadPoolCpp/ThreadPool.h and ThreadPoolC/ThreadPool.cpp are pools of threads. A step of the model
-- is what a thread does between two reads of a field that others write without a lock; what it does
-- while it holds the mutex is one step where every other reader and writer holds it too.
--   ThreadPoolCpp         the pool in C++11: Workers has the operations, Steps the relation
--   ThreadPoolC           the pool in the style of C: Threads has the operations, Steps the relation
--
-- Thread/threadSem.c is an exercise on a ring and two semaphores.
--   ThreadSem             the steps of the producer and the consumer
--
-- MyReactor/reactor.cpp is a server that answers each client with the time and its own text.
--   Reactor/Session       what a worker does with a client
--   Reactor/Clients       the list of clients between `main` and the workers, as steps
--
-- WebServer/ is a web server on Boost.Asio.
--   WebServer/Parser      `parse_request` of server_base.h
--   WebServer/Handlers    the resources of handler.h
--   WebServer/Resources   `respond` and `process_request_and_respond` of server_base.h
--
-- MemoryPool/ has an allocator of slots of one size, and a stack with an allocator.
--   MemoryPool/Blocks     `MemoryPool` of MemoryPool.h, on addresses
--   MemoryPool/Stack      `StackAlloc` of StackAlloc.h, on a heap of nodes
--
-- LeakDetector/LeakDetector.cpp keeps a list of the allocations.
--   LeakDetector          `AllocateMemory`, `DeleteMemory`, `LeakDetector`, the operators and the counter
--
-- Heap holds the nodes at addresses, and the chains that they form, of the queues, the stack and the
-- list of allocations.
-- Signals holds what ProcessPool and ChatRoom read from the pipe of signals, Prelude what all share.
--
-- What comes from outside (the answers of `recv`, `accept`, `fork`, `waitpid`, `epoll_wait`, the
-- draws of `rand`, fresh addresses, what a `%s` does with an `int`) is an argument, and calls with an
-- effect outside are recorded.
-- A loop over such answers goes on for as many as are given.
--
-- Fuel: `process_read` has two rounds for each byte that is left and two more, since a round takes a
-- byte at least, or is the one that parses the content; `choose` has a round for each process, since
-- it walks round the ring once; the table of PollServer is gone through in eight rounds, since there
-- are three slots and two users; the loops of WebServer have as many rounds as there are characters,
-- and one more, since each takes one, and are `none` or `ran_out` where that is not enough; a walk of
-- a queue, a stack or a list of allocations needs more fuel than there are nodes, which is a
-- hypothesis of each theorem on one.
--
-- Not modelled: the set-up of sockets, signals and shared memory, which is calls of the system; what
-- is printed; a failing allocation or creation of a thread; the averages of the simulation, which
-- are floating-point numbers; an overflow of `int` in the counts and times; and the programs under
-- Boost_asio, Concurrence and Libevent, and those of Thread on condition variables.
pub mod CgiServer
pub mod ChatRoom
pub mod Heap
pub mod HttpServer
pub mod LeakDetector
pub mod MemoryPool
pub mod PollServer
pub mod Prelude
pub mod ProcessPool
pub mod QueueService
pub mod Reactor
pub mod Signals
pub mod ThreadPoolC
pub mod ThreadPoolCpp
pub mod ThreadSem
pub mod WebServer
