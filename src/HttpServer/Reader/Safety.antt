-- ===== src/HttpServer/Reader/Safety.antt =====
-- `process_read` ends, and stays inside its buffers up to the terminator behind the content.
use c_project.Prelude.{ℕ, ◌≤◌, ◌≡◌, refl, ◌∙◌, List, some, none, Option, arith}
use c_project.HttpServer.Run.{ok, ◌>>=◌}
use c_project.HttpServer.Run.Returns.{Returns, returns, Safe, safe, Safe-bind, Safe-of_Returns}
use c_project.HttpServer.CString.Bounds.{c_str_at-some}
use c_project.HttpServer.Conn.{
  HttpConn, Stat, CheckState, requestline, header, content, HttpCode, get_request, bad_request,
  LineStatus, line_ok, line_open,
}
use c_project.HttpServer.Conn.Valid.{IsValid, last}
use c_project.HttpServer.Os.{Files}
use c_project.HttpServer.Request.Bounds.{
  Kept, HasUrl, Requested, text_at-some, parse_request_line-Requested,
}
use c_project.HttpServer.Request.Headers.{Parsed, parse_headers-Parsed, parse_content-Parsed}
use c_project.HttpServer.Reader.{
  file_name, serve_file, open_target, fetch, do_request, Turn, return, again, after_request_line,
  after_header, after_content, dispatch,
}
use c_project.HttpServer.Reader.FileName.{length-file_name, file_name-ends}

-- Behind the request line the URL lies in the buffer.
abbrev pub Ready : CheckState → Option ℕ → Type 0
Ready requestline url = Unit {0}
Ready header url = (u : ℕ) × (url ≡ some u) × (u ≤ last)
Ready content url = (u : ℕ) × (url ≡ some u) × (u ≤ last)

pub record IsReady (c : HttpConn) : Type 0 where
  pub valid : IsValid c
  pub ready : Ready c.check_state c.url

Ready-of_HasUrl : (s : CheckState) (c : HttpConn) → HasUrl c → Ready s c.url
Ready-of_HasUrl requestline c u = tt
Ready-of_HasUrl header c u = u
Ready-of_HasUrl content c u = u

serve_file-IsValid :
    (p : Option ℕ) (st : Option Stat) {c : HttpConn} → IsValid c → IsValid (serve_file p st c).1
unfolding serve_file
serve_file-IsValid p st v = ground arith

open_target-IsValid :
    (files : Files) (target : List ℕ) {c : HttpConn}
    → IsValid c
    → Returns (λ r. IsValid r.1) (open_target files target c)
unfolding open_target
open_target-IsValid files target {c} v =
    let name = file_name target c.real_file in
    let ends = file_name-ends target c.real_file v.file_size ∙ v.file_ends in
    let (path, read, short) = c_str_at-some name 0 199 (omega arith) ends in
    let named : IsValid (record c { real_file = name }) = record {
      size = v.size;
      ends = v.ends;
      room = v.room;
      checked = v.checked;
      started = v.started;
      file_size = length-file_name target c.real_file v.file_size;
      file_ends = ends;
    } in
    rw read (returns (serve_file-IsValid (files.mmap path) (files.stat path) named))

fetch-IsValid :
    (files : Files) (url : Option ℕ) {c : HttpConn} (u : ℕ)
    → IsValid c
    → url ≡ some u
    → u ≤ last
    → Returns (λ r. IsValid r.1) (fetch files url c)
unfolding fetch
fetch-IsValid files none u v found inside = cc
fetch-IsValid files (some w) u v found inside =
    let (target, read, short) = text_at-some v w (ground arith) in
    rw read (open_target-IsValid files target v)

do_request-IsValid :
    (files : Files) {c : HttpConn}
    → IsValid c
    → HasUrl c
    → Returns (λ r. IsValid r.1) (do_request files c)
unfolding do_request
do_request-IsValid files {c} v (u, found, inside) = fetch-IsValid files c.url u v found inside

-- What one round of the loop leaves, when it began in state `s`.
abbrev pub AfterTurn : CheckState → HttpConn → Turn → Type 0
AfterTurn s c (return code c') = IsValid c'
AfterTurn s c (again status c') =
    IsReady c'
    × (c'.read_idx ≡ c.read_idx)
    × (c'.checked_idx ≡ c.checked_idx)
    × (s ≡ content → status ≡ line_open)

go_on :
    {c c' : HttpConn} (s : CheckState) (status : LineStatus)
    → Kept c c'
    → HasUrl c'
    → (s ≡ content → status ≡ line_open)
    → Safe (AfterTurn s c) (ok (again status c'))
go_on {c'} s status k u h = safe (
  record { valid = k.valid; ready = Ready-of_HasUrl c'.check_state c' u },
  k.same_read,
  k.same_checked,
  h,
)

answered :
    (c : HttpConn) (s : CheckState) (files : Files) {c' : HttpConn}
    → IsValid c'
    → HasUrl c'
    → Safe (AfterTurn s c) (do_request files c' >>= λ (code, c''). ok (return code c''))
answered c s files v u =
    Safe-bind (Safe-of_Returns (do_request-IsValid files v u)) λ (code, c'') valid. safe valid

Parsed-HasUrl : {c c' : HttpConn} → Parsed c c' → HasUrl c → HasUrl c'
Parsed-HasUrl p (u, found, inside) = (u, p.same_url ∙ found, inside)

module _ (files : Files) {c : HttpConn} (v : IsValid c) (text : ℕ) (inside : text ≤ last) where
  after_request_line-AfterTurn :
      (code : HttpCode) (c' : HttpConn)
      → Requested c code c'
      → Safe (AfterTurn requestline c) (after_request_line code c')
  unfolding after_request_line
  after_request_line-AfterTurn bad_request c' q = safe q.kept.valid
  after_request_line-AfterTurn _ c' q =
      go_on requestline line_ok q.kept (q.found (λ e. cc)) (λ e. cc)

  after_header-AfterTurn :
      (code : HttpCode) (c' : HttpConn)
      → Parsed c c'
      → HasUrl c'
      → Safe (AfterTurn header c) (after_header files code c')
  unfolding after_header
  after_header-AfterTurn bad_request c' p u = safe p.kept.valid
  after_header-AfterTurn get_request c' p u = answered c header files p.kept.valid u
  after_header-AfterTurn _ c' p u = go_on header line_ok p.kept u (λ e. cc)

  after_content-AfterTurn :
      (code : HttpCode) (c' : HttpConn)
      → Parsed c c'
      → HasUrl c'
      → Safe (AfterTurn content c) (after_content files code c')
  unfolding after_content
  after_content-AfterTurn get_request c' p u = answered c content files p.kept.valid u
  after_content-AfterTurn _ c' p u = go_on content line_open p.kept u (λ e. refl)

  pub dispatch-AfterTurn :
      (s : CheckState) → Ready s c.url → Safe (AfterTurn s c) (dispatch files s text c)
  unfolding dispatch
  dispatch-AfterTurn requestline r =
      Safe-bind (Safe-of_Returns (parse_request_line-Requested v text inside))
        λ (code, c') q. after_request_line-AfterTurn code c' q
  dispatch-AfterTurn header r =
      Safe-bind (Safe-of_Returns (parse_headers-Parsed v text inside))
        λ (code, c') p. after_header-AfterTurn code c' p (Parsed-HasUrl p r)
  dispatch-AfterTurn content r =
      Safe-bind (parse_content-Parsed v text)
        λ (code, c') p. after_content-AfterTurn code c' p (Parsed-HasUrl p r)
