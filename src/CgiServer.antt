-- ===== src/CgiServer.antt =====
-- `CGI_conn` of ProcessPool/CGIserver.cpp. What `recv`, `access` and `fork` answer are arguments; the
-- calls with an effect are recorded. `none` is a read outside the buffer.
pub mod Find
pub mod Tests
use c_project.Prelude.{
  ℕ, zero, suc, ◌+◌, ◌-◌, Bool, true, false, ◌&&◌, Option, none, some, List, [], ◌∷◌, ◌++◌, ◌==◌,
  if◌then◌else◌, length, get_elem?, set, take, replicate, overwrite,
}
use c_project.Prelude.Options.{◌>>=◌}

abbrev pub buffer_size : ℕ
buffer_size = 1024

abbrev pub cr : ℕ
cr = 13

abbrev pub lf : ℕ
lf = 10

pub data Call : Type 0 where
  -- `removefd (m_epollfd, m_sockfd)`
  removed : Call
  -- in the child of `fork`: the output goes to the socket, and the program is run
  executed : (name : List ℕ) → Call

pub record CgiConn : Type 0 where
  pub m_buf : List ℕ
  pub m_read_idx : ℕ
  pub calls : List Call

unfoldable pub init : CgiConn → CgiConn
init c = record c { m_buf = replicate buffer_size 0; m_read_idx = 0 }

-- What `recv` answers: bytes, at least one; EAGAIN; another error; the end of the stream.
pub data Received : Type 0 where
  bytes : List ℕ → Received
  again failed ended : Received

pub data Forked : Type 0 where
  error parent child : Forked

-- The `for`, with `n` bytes left: `m_buf[idx-1]` is read whatever `idx` is.
pub find_line : (n : ℕ) → List ℕ → (idx : ℕ) → Option ℕ
find_line zero buf idx = some idx
find_line (suc n) buf zero = none
find_line (suc n) buf (suc k) = do
  before ← get_elem? buf k
  here ← get_elem? buf (suc k)
  let rest = find_line n buf (suc k + 1)
  if (before == cr) && (here == lf) then some (suc k) else rest

-- The string at the beginning of the buffer.
pub file_name : List ℕ → List ℕ
file_name [] = []
file_name (b ∷ buf) = if b == 0 then [] else b ∷ file_name buf

abbrev pub drop_conn : CgiConn → CgiConn
drop_conn c = record c { calls = c.calls ++ removed ∷ [] }

pub after_fork : Forked → CgiConn → CgiConn
after_fork error c = drop_conn c
after_fork parent c = drop_conn c
after_fork child c = record c { calls = c.calls ++ executed (file_name c.m_buf) ∷ [] }

-- From `m_buf[idx - 1] = '\0'` on.
unfoldable pub run_program : (exists : List ℕ → Bool) → Forked → (idx : ℕ) → CgiConn → CgiConn
run_program exists forked idx c =
    let c = record c { m_buf = set c.m_buf (idx - 1) 0 } in
    if exists (file_name c.m_buf) then after_fork forked c else drop_conn c

-- The bytes behind those read before; `recv` is asked for `BUFFER_SIZE - 1 - idx`.
unfoldable pub receive : List ℕ → CgiConn → CgiConn
receive s c = record c {
  m_buf = overwrite c.m_buf c.m_read_idx s;
  m_read_idx = c.m_read_idx + length s;
}

-- The `while`, for as many answers of `recv` as are given.
pub process : (exists : List ℕ → Bool) → Forked → List Received → CgiConn → Option CgiConn
process exists forked [] c = some c
process exists forked (again ∷ more) c = some c
process exists forked (failed ∷ more) c = some (drop_conn c)
process exists forked (ended ∷ more) c = some (drop_conn c)
process exists forked (bytes s ∷ more) c =
    let d = receive s c in
    let rest = process exists forked more d in
    do
      idx ← find_line (length s) d.m_buf c.m_read_idx
      if idx == d.m_read_idx then rest else some (run_program exists forked idx d)
