-- ===== src/HttpServer/Transfer.antt =====
-- `read`, `write`, `unmap`, `close_conn`, `init (sockfd, addr)` and `process` of http_conn.cpp, with
-- the functions `addfd`, `removefd` and `modfd`. What `recv` and `writev` return is a list, in order.
pub mod Laws
use c_project.Prelude.{
  ℕ, ◌+◌, ◌-◌, Bool, true, false, Option, none, some, List, [], ◌∷◌, ltb, leb, ◌==◌, if◌then◌else◌,
  length, overwrite,
}
use c_project.Prelude.Int.{ℤ, pos, ◌+ℤ◌, ◌-ℤ◌, leb_ℤ}
use c_project.HttpServer.Run.{Run, ok, fault, out_of_fuel, over_write, ◌>>=◌}
use c_project.HttpServer.Conn.{read_buffer_size, HttpConn, init, HttpCode, no_request}
use c_project.HttpServer.Os.{
  Files, Interest, epoll_in, epoll_out, Call, add, modify, remove, close, munmap, World,
}
use c_project.HttpServer.Reader.{process_read}
use c_project.HttpServer.Response.{process_write}

unfoldable pub call : Call → World → World
call k w = record w { log = k ∷ w.log }

unfoldable pub addfd : ℕ → Bool → World → World
unfolding call
addfd fd one_shot = call (add fd one_shot)

unfoldable pub removefd : ℕ → World → World
unfolding call
removefd fd w = call (close fd) (call (remove fd) w)

unfoldable pub modfd : Option ℕ → Interest → World → World
unfolding call
modfd fd ev = call (modify fd ev)

-- `close_conn` with its default argument, `true`.
unfoldable pub close_conn : World → HttpConn → World × HttpConn
unfolding removefd ◌-ℤ◌
close_conn w c = elim c.sockfd [
  | none ↦ (w, c)
  | some fd ↦
      (record (removefd fd w) { user_count = w.user_count -ℤ pos 1 }, record c { sockfd = none })
]

unfoldable pub init_conn : ℕ → ℕ → World → HttpConn → World × HttpConn
unfolding addfd init ◌+ℤ◌
init_conn sockfd addr w c = (
  record (addfd sockfd true w) { user_count = w.user_count +ℤ pos 1 },
  init (record c { sockfd = some sockfd; address = addr }),
)

-- What one `recv` returns: bytes, or -1 with the errno that ends the loop or with another.
pub data Received : Type 0 where
  bytes : List ℕ → Received
  would_block failed : Received

-- `recv` gets at most the room that is left, and returns 0 at the end of the stream.
unfoldable pub recv_loop : List Received → HttpConn → Run (Bool × HttpConn)
recv_loop [] c = out_of_fuel
recv_loop (would_block ∷ more) c = ok (true, c)
recv_loop (failed ∷ more) c = ok (false, c)
recv_loop (bytes s ∷ more) c =
    if length s == 0
    then ok (false, c)
    else if ltb (read_buffer_size - c.read_idx) (length s)
    then fault over_write
    else recv_loop more (record c {
      read_buf = overwrite c.read_buf c.read_idx s;
      read_idx = c.read_idx + length s;
    })

unfoldable pub read : List Received → HttpConn → Run (Bool × HttpConn)
unfolding recv_loop
read answers c = if leb read_buffer_size c.read_idx then ok (false, c) else recv_loop answers c

unfoldable pub unmap : World → HttpConn → World × HttpConn
unfolding call
unmap w c = elim c.file_address [
  | none ↦ (w, c)
  | some p ↦ (call (munmap p c.file_stat.size) w, record c { file_address = none })
]

-- What one `writev` returns: a count, or -1 with EAGAIN or with another errno.
pub data Written : Type 0 where
  count : ℕ → Written
  try_again broken : Written

-- The end of `write`, when all is taken to be sent.
unfoldable pub finish_write : World → HttpConn → Bool × World × HttpConn
unfolding unmap init modfd
finish_write w c =
    let (w', c') = unmap w c in
    let w'' = modfd c'.sockfd epoll_in w' in
    if c'.linger then (true, w'', init c') else (false, w'', c')

unfoldable pub abort_write : World → HttpConn → Bool × World × HttpConn
unfolding unmap
abort_write w c = let (w', c') = unmap w c in (false, w', c')

-- The loop of `write`: `to_send` and `sent` are its two counters.
unfoldable pub write_loop : List Written → ℤ → ℤ → World → HttpConn → Run (Bool × World × HttpConn)
unfolding finish_write abort_write modfd ◌+ℤ◌ ◌-ℤ◌
write_loop [] to_send sent w c = out_of_fuel
write_loop (try_again ∷ more) to_send sent w c = ok (true, modfd c.sockfd epoll_out w, c)
write_loop (broken ∷ more) to_send sent w c = ok (abort_write w c)
write_loop (count n ∷ more) to_send sent w c =
    let to_send' = to_send -ℤ pos n in
    let sent' = sent +ℤ pos n in
    let rest = write_loop more to_send' sent' w c in
    if leb_ℤ to_send' sent' then ok (finish_write w c) else rest

unfoldable pub write : List Written → World → HttpConn → Run (Bool × World × HttpConn)
unfolding write_loop init modfd
write answers w c =
    if c.write_idx == 0
    then ok (true, modfd c.sockfd epoll_in w, init c)
    else write_loop answers (pos c.write_idx) (pos 0) w c

unfoldable pub is_no_request : HttpCode → Bool
is_no_request no_request = true
is_no_request _ = false

-- The part of `process` behind `process_read`.
unfoldable pub answer : (ℕ → Option (List ℕ)) → HttpCode → World → HttpConn → Run (World × HttpConn)
unfolding process_write close_conn modfd is_no_request
answer status_text code w c = if is_no_request code then ok (modfd c.sockfd epoll_in w, c) else do
  (written, c) ← process_write status_text code c
  let (w, c) = if written then (w, c) else close_conn w c
  ok (modfd c.sockfd epoll_in w, c)

unfoldable pub process : Files → (ℕ → Option (List ℕ)) → World → HttpConn → Run (World × HttpConn)
unfolding process_read answer
process files status_text w c = do (code, c) ← process_read files c; answer status_text code w c
