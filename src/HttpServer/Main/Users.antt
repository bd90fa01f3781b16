-- ===== src/HttpServer/Main/Users.antt =====
-- `m_user_count` counts the connections that are open.
use c_project.Prelude.{ℕ, zero, suc, ◌+◌, ◌≡◌, refl, none, some, arith}
use c_project.Prelude.Int.{pos}
use c_project.HttpServer.Conn.{HttpConn}
use c_project.HttpServer.Transfer.{count}
use c_project.HttpServer.Main.{max_fd, Event, Server}

abbrev is_open : HttpConn → ℕ
is_open c = elim c.sockfd [ none ↦ 0 | some _ ↦ 1 ]

-- The open connections among the first `n`.
pub open_count : ℕ → (ℕ → HttpConn) → ℕ
open_count zero users = 0
open_count (suc n) users = open_count n users + is_open (users n)

pub record Counted (s : Server) : Type 0 where
  pub count : s.world.user_count ≡ pos (open_count max_fd s.users)

open_count-closed :
    (n : ℕ) (users : ℕ → HttpConn) → ((i : ℕ) → (users i).sockfd ≡ none) → open_count n users ≡ 0
unfolding open_count
open_count-closed zero users closed = refl
open_count-closed (suc n) users closed = ground (arith, open_count-closed n users closed, closed n)

-- A server that starts, without a connection.
pub closed-Counted :
    (s : Server) → s.world.user_count ≡ pos 0 → ((i : ℕ) → (s.users i).sockfd ≡ none) → Counted s
closed-Counted s zero_users closed = record {
  count = rw (zero_users, open_count-closed max_fd s.users closed) refl;
}

-- The kernel gives `accept` a descriptor that is not open.
abbrev pub Fresh : Event → Server → Type 0
Fresh e s = (fd addr : ℕ) → e.accepted ≡ some (fd, addr) → (s.users fd).sockfd ≡ none
