-- ===== src/HttpServer/Main/Events.antt =====
-- What the event loop does with its clients.
use c_project.Prelude.{ℕ, ◌≡◌, ◌∙◌, Option, List, [], ◌∷◌, arith}
use c_project.HttpServer.Run.{ok, >>=-eq-ok}
use c_project.HttpServer.Main.{
  Event, Server, show_error, welcome, hang_up_user, transmit, client_event, handle, serve,
}

transmit-pool : (e : Event) (s t : Server) → transmit e.fd e.outgoing s ≡ ok t → t.pool ≡ s.pool
unfolding transmit hang_up_user
transmit-pool e s t h = ground arith

welcome-pool : (a : Option (ℕ × ℕ)) (s t : Server) → welcome a s ≡ ok t → t.pool ≡ s.pool
unfolding welcome show_error
welcome-pool a s t h = ground arith

client_event-pool : (e : Event) (s t : Server) → client_event e s ≡ ok t → t.pool ≡ s.pool
unfolding client_event hang_up_user
client_event-pool e s t h = ground (arith, transmit-pool e s t)

handle-pool : (e : Event) (s t : Server) → handle e s ≡ ok t → t.pool ≡ s.pool
unfolding handle
handle-pool e s t h = ground (arith, welcome-pool e.accepted s t, client_event-pool e s t)

-- Whatever events the loop of `main` serves, when it returns the pool is as it was: no request
-- reaches it, since the test for a hang-up includes EPOLLIN and stands first.
pub serve-pool : (es : List Event) (s t : Server) → serve es s ≡ ok t → t.pool ≡ s.pool
unfolding serve
serve-pool [] s t h = ground arith
serve-pool (e ∷ es) s t h =
    let (mid, first, rest) = >>=-eq-ok (handle e s) (serve es) t h in
    serve-pool es mid t rest ∙ handle-pool e s mid first
