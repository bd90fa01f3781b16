-- ===== src/HttpServer/Line.antt =====
-- `parse_line` and `get_line` of http_conn.cpp and http_conn.h.
pub mod Bounds
pub mod Resume
use c_project.Prelude.{ℕ, zero, suc, ◌+◌, ◌-◌, ltb, ◌==◌, if◌then◌else◌}
use c_project.HttpServer.Run.{Run, ok, ◌>>=◌, read_at}
use c_project.HttpServer.Conn.{HttpConn, LineStatus, line_ok, line_bad, line_open, poke}

abbrev pub cr : ℕ
cr = 13

abbrev pub lf : ℕ
lf = 10

-- The two writes of NUL over the line's end at `i` and `i + 1`, and the step past it.
unfoldable pub end_line : ℕ → HttpConn → Run (LineStatus × HttpConn)
unfolding poke
end_line i c = do
  c ← poke i 0 c
  c ← poke (i + 1) 0 c
  ok (line_ok, record c { checked_idx = i + 2 })

-- The body of the `for` on a carriage return, and on a line feed.
unfoldable pub at_cr : HttpConn → Run (LineStatus × HttpConn)
unfolding end_line
at_cr c = if c.checked_idx + 1 == c.read_idx then ok (line_open, c) else do
  next ← read_at c.read_buf (c.checked_idx + 1)
  if next == lf then end_line c.checked_idx c else ok (line_bad, c)

unfoldable pub at_lf : HttpConn → Run (LineStatus × HttpConn)
unfolding end_line
at_lf c =
    if ltb 1 c.checked_idx
    then (do
      previous ← read_at c.read_buf (c.checked_idx - 1)
      if previous == cr then end_line (c.checked_idx - 1) c else ok (line_bad, c))
    else ok (line_bad, c)

-- The `for` loop, on the rounds left.
unfoldable pub scan : ℕ → HttpConn → Run (LineStatus × HttpConn)
unfolding at_cr at_lf
scan zero c = ok (line_open, c)
scan (suc n) c = do
  temp ← read_at c.read_buf c.checked_idx
  let rest = scan n (record c { checked_idx = c.checked_idx + 1 })
  if temp == cr then at_cr c else if temp == lf then at_lf c else rest

unfoldable pub parse_line : HttpConn → Run (LineStatus × HttpConn)
unfolding scan
parse_line c = scan (c.read_idx - c.checked_idx) c

-- The offset that `get_line` points at.
abbrev pub get_line : HttpConn → ℕ
get_line c = c.start_line
