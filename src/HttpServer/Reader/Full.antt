-- ===== src/HttpServer/Reader/Full.antt =====
-- A connection whose read buffer the peer has filled to its last byte, in `process_read`: the line
-- that is printed has no terminator.
use c_project.Prelude.{suc, ◌+◌, ◌-◌, ◌*◌, ◌≡◌, refl, ap, none, true, arith}
use c_project.HttpServer.Run.{ok, fault, over_read}
use c_project.HttpServer.CString.{c_str_at}
use c_project.HttpServer.Conn.{HttpConn, content, line_ok}
use c_project.HttpServer.Os.{Files}
use c_project.HttpServer.Request.{text_at}
use c_project.HttpServer.Reader.{body, skips_line, condition, turn, read_loop, rounds, process_read}

-- The content is being read, and no NUL stands between the start of the line and the end of the
-- buffer.
pub record IsFull (c : HttpConn) : Type 0 where
  pub reads_content : c.check_state ≡ content
  pub unended : c_str_at c.read_buf c.start_line ≡ none

body-full : (files : Files) (c : HttpConn) → IsFull c → body files c ≡ fault over_read
unfolding body text_at
body-full files c f = rw f.unended refl

condition-full : (c : HttpConn) → IsFull c → condition line_ok c ≡ ok (true, c)
unfolding condition skips_line
condition-full c f =
    let skips : skips_line c.check_state line_ok ≡ true =
      ap (λ s. skips_line s line_ok) f.reads_content in
    rw skips refl

pub process_read-full :
    (files : Files) (c : HttpConn) → IsFull c → process_read files c ≡ fault over_read
unfolding process_read read_loop turn
process_read-full files c f =
    let some_rounds : rounds c ≡ suc (2 * (c.read_idx - c.checked_idx) + 1) = omega arith in
    rw (some_rounds, condition-full c f, body-full files c f) refl
