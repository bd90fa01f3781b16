-- ===== src/HttpServer/Reader.antt =====
-- `process_read` and `do_request` of http_conn.cpp.
pub mod FileName
pub mod Safety
pub mod Full
pub mod Loop
use c_project.Prelude.{
  ℕ, zero, suc, ◌+◌, ◌-◌, ◌*◌, ◌/◌, ◌%◌, Bool, true, false, Option, none, some, List, ◌++◌, ◌==◌,
  if◌then◌else◌, length, take, drop, replicate,
}
use c_project.HttpServer.Run.{Run, ok, fault, out_of_fuel, over_read, ◌>>=◌, checked}
use c_project.HttpServer.CString.{codes, c_str_at}
use c_project.HttpServer.Conn.{
  filename_len, HttpConn, Stat, CheckState, requestline, header, content, HttpCode, no_request,
  get_request, bad_request, no_resource, forbidden_request, file_request, LineStatus, line_ok,
  line_open,
}
use c_project.HttpServer.Os.{Files}
use c_project.HttpServer.Line.{parse_line, get_line}
use c_project.HttpServer.Request.{text_at, parse_request_line, parse_headers, parse_content}

abbrev pub doc_root : List ℕ
doc_root = codes "/var/www/html"

-- The bytes that `strncpy (d, s, n)` writes: `s` cut to `n`, or filled up with NUL.
abbrev pub strncpy_bytes : List ℕ → ℕ → List ℕ
strncpy_bytes s n = take n (s ++ replicate n 0)

-- `strcpy (m_real_file, doc_root)` and the `strncpy` of the URL behind it.
unfoldable pub file_name : List ℕ → List ℕ → List ℕ
file_name target old =
    let room = filename_len - length doc_root - 1 in
    doc_root ++ (strncpy_bytes target room ++ drop (length doc_root + room) old)

-- mode & S_IROTH, and S_ISDIR (mode)
unfoldable pub others_read : ℕ → Bool
others_read mode = mode / 4 % 2 == 1

unfoldable pub is_directory : ℕ → Bool
is_directory mode = mode / 0x1000 % 16 == 4

-- What `do_request` does with the answer of `stat`.
unfoldable pub serve_file : Option ℕ → Option Stat → HttpConn → HttpCode × HttpConn
unfolding others_read is_directory
serve_file address none c = (no_resource, c)
serve_file address (some st) c =
    let c = record c { file_stat = st } in
    if others_read st.mode
    then (if is_directory st.mode
        then (bad_request, c)
        else (file_request, record c { file_address = address }))
    else (forbidden_request, c)

-- The C string of the file name is what is looked up.
unfoldable pub open_target : Files → List ℕ → HttpConn → Run (HttpCode × HttpConn)
unfolding file_name serve_file c_str_at
open_target files target c = do
  let c = record c { real_file = file_name target c.real_file }
  path ← checked (c_str_at c.real_file 0)
  ok (serve_file (files.mmap path) (files.stat path) c)

-- The URL at `m_url`; a null pointer would be read.
unfoldable pub fetch : Files → Option ℕ → HttpConn → Run (HttpCode × HttpConn)
unfolding open_target text_at
fetch files none c = fault over_read
fetch files (some u) c = do target ← text_at c u; open_target files target c

unfoldable pub do_request : Files → HttpConn → Run (HttpCode × HttpConn)
unfolding fetch
do_request files c = fetch files c.url c

-- What the loop of `process_read` does next.
pub data Turn : Type 0 where
  return : HttpCode → HttpConn → Turn
  again : LineStatus → HttpConn → Turn

-- The three cases of the switch, by the code that the parser returned.
unfoldable pub after_request_line : HttpCode → HttpConn → Run Turn
after_request_line bad_request c = ok (return bad_request c)
after_request_line _ c = ok (again line_ok c)

unfoldable pub after_header : Files → HttpCode → HttpConn → Run Turn
after_header files bad_request c = ok (return bad_request c)
after_header files get_request c = do (code, c) ← do_request files c; ok (return code c)
after_header files _ c = ok (again line_ok c)

unfoldable pub after_content : Files → HttpCode → HttpConn → Run Turn
after_content files get_request c = do (code, c) ← do_request files c; ok (return code c)
after_content files _ c = ok (again line_open c)

unfoldable pub dispatch : Files → CheckState → ℕ → HttpConn → Run Turn
unfolding after_request_line after_header after_content
dispatch files requestline text c = do
  (code, c) ← parse_request_line text c
  after_request_line code c
dispatch files header text c = do (code, c) ← parse_headers text c; after_header files code c
dispatch files content text c = do (code, c) ← parse_content text c; after_content files code c

-- The body of the loop: the line is printed, which reads it to its NUL.
unfoldable pub body : Files → HttpConn → Run Turn
unfolding dispatch
body files c = do
  let text = get_line c
  let c = record c { start_line = c.checked_idx }
  printed ← text_at c text
  dispatch files c.check_state text c

abbrev pub is_ok : LineStatus → Bool
is_ok line_ok = true
is_ok _ = false

-- The condition of the loop, with the call of `parse_line` that it makes.
unfoldable pub skips_line : CheckState → LineStatus → Bool
skips_line content line_ok = true
skips_line _ _ = false

unfoldable pub condition : LineStatus → HttpConn → Run (Bool × HttpConn)
unfolding skips_line
condition status c =
    if skips_line c.check_state status
    then ok (true, c)
    else do (found, c) ← parse_line c; ok (is_ok found, c)

-- The rest of the function behind the body, and behind the condition: `next` is the next round.
unfoldable pub continue :
    (LineStatus → HttpConn → Run (HttpCode × HttpConn)) → Turn → Run (HttpCode × HttpConn)
continue next (return code c) = ok (code, c)
continue next (again status c) = next status c

unfoldable pub turn :
    Files
    → (LineStatus → HttpConn → Run (HttpCode × HttpConn))
    → Bool
    → HttpConn
    → Run (HttpCode × HttpConn)
unfolding continue body
turn files next true c = do t ← body files c; continue next t
turn files next false c = ok (no_request, c)

unfoldable pub read_loop : Files → ℕ → LineStatus → HttpConn → Run (HttpCode × HttpConn)
unfolding condition turn
read_loop files zero status c = out_of_fuel
read_loop files (suc fuel) status c = do
  (more, c) ← condition status c
  turn files (read_loop files fuel) more c

-- Each round takes a byte at least, or is the one round that parses the content.
abbrev pub rounds : HttpConn → ℕ
rounds c = 2 * (c.read_idx - c.checked_idx) + 2

unfoldable pub process_read : Files → HttpConn → Run (HttpCode × HttpConn)
unfolding read_loop
process_read files c = read_loop files (rounds c) line_ok c
