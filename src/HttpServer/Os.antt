-- ===== src/HttpServer/Os.antt =====
-- What http_conn.cpp asks of the system: files by path, and a log of the calls that have an effect
-- on a descriptor or on a mapping.
use c_project.Prelude.{ℕ, Option, List, Bool}
use c_project.Prelude.Int.{ℤ}
use c_project.HttpServer.Conn.{Stat}

-- `stat` of a path, and the address that `mmap` gives its file.
pub record Files : Type 0 where
  pub stat : List ℕ → Option Stat
  pub mmap : List ℕ → Option ℕ

pub data Interest : Type 0 where
  epoll_in epoll_out : Interest

-- The calls of one object on the kernel, by descriptor or address. `add` and `modify` carry what is
-- asked for beside EPOLLET and EPOLLRDHUP: one shot or not, and the event.
pub data Call : Type 0 where
  add : ℕ → Bool → Call
  modify : Option ℕ → Interest → Call
  remove : ℕ → Call
  close : ℕ → Call
  munmap : ℕ → ℕ → Call

-- The static members of `http_conn` (the epoll descriptor is fixed), and the calls made so far,
-- the last one first.
pub record World : Type 0 where
  pub user_count : ℤ
  pub log : List Call
