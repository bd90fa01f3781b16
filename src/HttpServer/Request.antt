-- ===== src/HttpServer/Request.antt =====
-- `parse_request_line`, `parse_headers` and `parse_content` of http_conn.cpp. (The header declares
-- the second as `parse_header`, the name by which `process_read` calls it.)
pub mod Bounds
pub mod Headers
use mathlib.Core.Option
use c_project.Prelude.{
  ℕ, ◌+◌, ◌-◌, ◌^◌, true, Option, none, some, List, ltb, ◌==◌, if◌then◌else◌, length, set,
}
use c_project.Prelude.Int.{ℤ, pos, negsuc, ◌+ℤ◌, leb_ℤ, is_zero_ℤ}
use c_project.HttpServer.Run.{Run, ok, fault, bad_length, ◌>>=◌, checked, read_at}
use c_project.HttpServer.CString.{
  codes, c_str_at, strpbrk_blank, strchr, strspn_blank, same_text, starts_with_text, atol, to_int,
}
use c_project.HttpServer.Conn.{
  HttpConn, get, header, content, HttpCode, no_request, get_request, bad_request, poke,
}

-- The string at an offset of the read buffer.
unfoldable pub text_at : HttpConn → ℕ → Run (List ℕ)
unfolding c_str_at
text_at c i = checked (c_str_at c.read_buf i)

unfoldable pub accept_path : Option ℕ → HttpConn → Run (HttpCode × HttpConn)
accept_path none c = ok (bad_request, record c { url = none })
accept_path (some u) c = do
  first ← read_at c.read_buf u
  if first == b'/'
      then ok (no_request, record c { url = some u; check_state = header })
      else ok (bad_request, record c { url = some u })

-- From the test for `HTTP://` on.
unfoldable pub request_path : ℕ → HttpConn → Run (HttpCode × HttpConn)
unfolding text_at accept_path
request_path u c = do
  target ← text_at c u
  if starts_with_text target (codes "HTTP://")
      then (do
        rest ← text_at c (u + 7)
        accept_path (Option.map (λ k. u + 7 + k) (strchr rest b'/')) c)
      else accept_path (some u) c

-- From the write behind the URL, at `v`, on.
unfoldable pub request_version : ℕ → ℕ → HttpConn → Run (HttpCode × HttpConn)
unfolding text_at poke request_path
request_version u v c = do
  c ← poke v 0 c
  blanks ← text_at c (v + 1)
  let w = v + 1 + strspn_blank blanks
  protocol ← text_at c w
  let c = record c { url = some u; version = some w }
  if same_text protocol (codes "HTTP/1.1") then request_path u c else ok (bad_request, c)

-- From the step over the blanks before the URL on.
unfoldable pub request_url : ℕ → HttpConn → Run (HttpCode × HttpConn)
unfolding text_at request_version
request_url i c = do
  blanks ← text_at c i
  let u = i + strspn_blank blanks
  rest ← text_at c u
  elim (strpbrk_blank rest) [
    | none ↦ ok (bad_request, record c { url = some u; version = none })
    | some k ↦ request_version u (u + k) c
  ]

-- From the write behind the method, at `i`, on.
unfoldable pub request_method : ℕ → ℕ → HttpConn → Run (HttpCode × HttpConn)
unfolding text_at poke request_url
request_method text i c = do
  c ← poke i 0 c
  method ← text_at c text
  if same_text method (codes "GET")
      then request_url (i + 1) (record c { method = get })
      else ok (bad_request, record c { url = some (i + 1) })

unfoldable pub parse_request_line : ℕ → HttpConn → Run (HttpCode × HttpConn)
unfolding text_at request_method
parse_request_line text c = do
  line ← text_at c text
  elim (strpbrk_blank line) [
    | none ↦ ok (bad_request, record c { url = none })
    | some k ↦ request_method text (text + k) c
  ]

-- The three headers that have a meaning, each from the offset behind its name on.
unfoldable pub connection_header : ℕ → HttpConn → Run (HttpCode × HttpConn)
unfolding text_at
connection_header i c = do
  blanks ← text_at c i
  option ← text_at c (i + strspn_blank blanks)
  ok (no_request, if same_text option (codes "keep-alive") then record c { linger = true } else c)

unfoldable pub length_header : ℕ → HttpConn → Run (HttpCode × HttpConn)
unfolding text_at
length_header i c = do
  blanks ← text_at c i
  number ← text_at c (i + strspn_blank blanks)
  ok (no_request, record c { content_length = to_int (atol number) })

unfoldable pub host_header : ℕ → HttpConn → Run (HttpCode × HttpConn)
unfolding text_at
host_header i c = do
  blanks ← text_at c i
  ok (no_request, record c { host = some (i + strspn_blank blanks) })

unfoldable pub end_of_headers : HttpConn → HttpCode × HttpConn
end_of_headers c =
    if is_zero_ℤ c.content_length
    then (get_request, c)
    else (no_request, record c { check_state = content })

unfoldable pub parse_headers : ℕ → HttpConn → Run (HttpCode × HttpConn)
unfolding text_at connection_header length_header host_header end_of_headers
parse_headers text c = do
  line ← text_at c text
  if length line == 0
      then ok (end_of_headers c)
      else if starts_with_text line (codes "Connextion:")
      then connection_header (text + 11) c
      else if starts_with_text line (codes "Content-Length:")
      then length_header (text + 15) c
      else if starts_with_text line (codes "Host:")
      then host_header (text + 5) c
      else ok (no_request, c)

-- The offset of `text[n]`, which for a negative `n` may lie before the buffer.
unfoldable pub offset : ℕ → ℤ → Option ℕ
offset text (pos n) = some (text + n)
offset text (negsuc n) = if ltb n text then some (text - (n + 1)) else none

-- `text[n] = '\0'`, with a length that came from the peer.
unfoldable pub end_content : ℕ → ℤ → HttpConn → Run HttpConn
unfolding offset
end_content text n c = elim (offset text n) [
  | none ↦ fault bad_length
  | some i ↦
      (if ltb i (length c.read_buf)
        then ok (record c { read_buf = set c.read_buf i 0 })
        else fault bad_length)
]

-- The sum is of two `int`; past their range it is undefined.
unfoldable pub parse_content : ℕ → HttpConn → Run (HttpCode × HttpConn)
unfolding end_content ◌+ℤ◌
parse_content text c =
    let needed = c.content_length +ℤ pos c.checked_idx in
    if leb_ℤ (pos (2 ^ 31)) needed
    then fault bad_length
    else if leb_ℤ needed (pos c.read_idx)
    then (do c ← end_content text c.content_length c; ok (get_request, c))
    else ok (no_request, c)
