-- ===== src/HttpServer/Main.antt =====
-- The event loop of HttpServer/main.cpp. An event carries what `epoll_wait` reported, and what the
-- calls that its handler makes will return.
pub mod Events
pub mod Users
use c_project.Prelude.{
  ℕ, ◌+◌, ◌<◌, Bool, true, false, ◌||◌, Option, none, some, List, [], ◌∷◌, ltb, ◌==◌, if◌then◌else◌,
}
use c_project.Prelude.Int.{ℤ, pos, leb_ℤ}
use c_project.HttpServer.Run.{Run, ok, fault, over_write, ◌>>=◌}
use c_project.HttpServer.Conn.{HttpConn}
use c_project.HttpServer.Os.{World, Call, close}
use c_project.HttpServer.Transfer.{call, close_conn, init_conn, Received, read, Written, write}
use c_project.HttpServer.Pool.{Pool, append, post}

-- MAX_FD
unfoldable pub max_fd : ℕ
max_fd = 65536

pub record Event : Type 0 where
  pub fd : ℕ
  pub readable : Bool
  pub hang_up : Bool
  pub error : Bool
  pub writable : Bool
  -- what `accept` would return: a descriptor and an address, or -1
  pub accepted : Option (ℕ × ℕ)
  pub incoming : List Received
  pub outgoing : List Written

-- The array `users`, the static members, and the pool.
pub record Server : Type 0 where
  pub listenfd : ℕ
  pub users : ℕ → HttpConn
  pub world : World
  pub pool : Pool

abbrev pub put : (ℕ → HttpConn) → ℕ → HttpConn → ℕ → HttpConn
put users i c j = if i == j then c else users j

abbrev pub update : ℕ → World × HttpConn → Server → Server
update i (w, c) s = record s { users = put s.users i c; world = w }

-- `show_error`: the message has no effect here, the connection is closed.
unfoldable pub show_error : ℕ → Server → Server
show_error connfd s = record s { world = call (close connfd) s.world }

unfoldable pub welcome : Option (ℕ × ℕ) → Server → Run Server
welcome none s = ok s
welcome (some (connfd, addr)) s =
    if leb_ℤ (pos max_fd) s.world.user_count
    then ok (show_error connfd s)
    else if ltb connfd max_fd
    then ok (update connfd (init_conn connfd addr s.world (s.users connfd)) s)
    else fault over_write

unfoldable pub hang_up_user : ℕ → Server → Server
hang_up_user fd s = update fd (close_conn s.world (s.users fd)) s

-- `append`, with the `post` that follows an acceptance. A request is a pointer, so never null.
unfoldable pub enqueue : ℕ → Pool → Pool
enqueue fd p = let (added, p') = append (fd + 1) p in if added then post p' else p'

-- `read`, then `append` or `close_conn`.
unfoldable pub receive : ℕ → List Received → Server → Run Server
receive fd incoming s = do
  (more, c) ← read incoming (s.users fd)
  let s = record s { users = put s.users fd c }
  ok (if more then (record s { pool = enqueue fd s.pool }) else hang_up_user fd s)

unfoldable pub transmit : ℕ → List Written → Server → Run Server
transmit fd outgoing s = do
  (more, w, c) ← write outgoing s.world (s.users fd)
  let s = update fd (w, c) s
  ok (if more then s else hang_up_user fd s)

-- The branches on the flags of a client's event. The second test is of EPOLLIN, EPOLLHUP and
-- EPOLLERR together, as the code has it.
unfoldable pub client_event : Event → Server → Run Server
client_event e s =
    if e.readable || (e.hang_up || e.error)
    then ok (hang_up_user e.fd s)
    else if e.readable
    then receive e.fd e.incoming s
    else if e.writable
    then transmit e.fd e.outgoing s
    else ok s

unfoldable pub handle : Event → Server → Run Server
handle e s = if e.fd == s.listenfd then welcome e.accepted s else client_event e s

unfoldable pub serve : List Event → Server → Run Server
serve [] s = ok s
serve (e ∷ es) s = do s ← handle e s; serve es s
