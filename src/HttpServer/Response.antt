-- ===== src/HttpServer/Response.antt =====
-- `add_response`, the functions that call it, and `process_write` of http_conn.cpp.
-- `status_text` is what the `%s` of `add_status_line` does with the `int` that the code hands it, for
-- which C promises nothing: `none` is a crash, as the number is read as an address, and `some` the
-- text that is printed. A `%d` prints a length, which is never negative here.
pub mod Buffer
pub mod Pages
use c_project.HttpServer.Run.{Run, ok, fault, bad_argument, ◌>>=◌}
use c_project.Prelude.{
  ℕ, zero, suc, ◌+◌, ◌-◌, ◌/◌, ◌%◌, Bool, true, false, List, [], ◌∷◌, ◌++◌, ltb, leb, ◌==◌,
  if◌then◌else◌, length, overwrite, take, drop, Option, none, some,
}
use c_project.HttpServer.CString.{codes}
use c_project.HttpServer.Conn.{
  write_buffer_size, HttpConn, HttpCode, bad_request, no_resource, forbidden_request, file_request,
  internal_error, buffered, mapped,
}

-- vsnprintf (buf + i, size, "%s", s)
unfoldable pub vsnprintf : List ℕ → ℕ → ℕ → List ℕ → List ℕ
vsnprintf buf i zero s = buf
vsnprintf buf i (suc room) s = overwrite buf i (take room s ++ 0 ∷ [])

-- `text` is the text that the format and its arguments stand for.
unfoldable pub add_response : List ℕ → HttpConn → Bool × HttpConn
add_response text c =
    if leb write_buffer_size c.write_idx
    then (false, c)
    else (let size = write_buffer_size - 1 - c.write_idx in
        let c' = record c { write_buf = vsnprintf c.write_buf c.write_idx size text } in
        if leb size (length text)
        then (false, c')
        else (true, record c' { write_idx = c.write_idx + length text }))

abbrev pub crlf : List ℕ
crlf = 13 ∷ 10 ∷ []

-- The decimal digits of a number, on fuel: ten rounds write every `int`.
decimal_digits : ℕ → ℕ → List ℕ → List ℕ
decimal_digits zero n out = out
decimal_digits (suc fuel) n out =
    let more = decimal_digits fuel (n / 10) ((48 + n % 10) ∷ out) in
    if ltb n 10 then (48 + n) ∷ out else more

unfoldable pub decimal : ℕ → List ℕ
unfolding decimal_digits
decimal n = decimal_digits 10 n []

unfoldable pub status_line : (printed title : List ℕ) → List ℕ
status_line printed title = codes "HTTP/1.1 " ++ (printed ++ (32 ∷ (title ++ crlf)))

unfoldable pub content_length_line : ℕ → List ℕ
content_length_line n = codes "Content-Length: " ++ (decimal n ++ crlf)

unfoldable pub linger_line : Bool → List ℕ
linger_line linger =
    codes "Connection: " ++ ((if linger then codes "keep_alive" else codes "close") ++ crlf)

-- What `vsnprintf` reads for the `%s`.
abbrev pub read_argument : Option (List ℕ) → Run (List ℕ)
read_argument none = fault bad_argument
read_argument (some printed) = ok printed

-- Where the buffer is full, `add_response` returns before the arguments are read.
unfoldable pub add_status_line :
    (ℕ → Option (List ℕ)) → ℕ → List ℕ → HttpConn → Run (Bool × HttpConn)
add_status_line status_text status title c =
    if leb write_buffer_size c.write_idx then ok (false, c) else do
      printed ← read_argument (status_text status)
      ok (add_response (status_line printed title) c)

unfoldable pub add_content_length : ℕ → HttpConn → Bool × HttpConn
add_content_length n = add_response (content_length_line n)

unfoldable pub add_linger : HttpConn → Bool × HttpConn
add_linger c = add_response (linger_line c.linger) c

unfoldable pub add_blank_line : HttpConn → Bool × HttpConn
add_blank_line = add_response crlf

unfoldable pub add_content : List ℕ → HttpConn → Bool × HttpConn
add_content = add_response

-- The results of the three calls are dropped.
unfoldable pub add_headers : ℕ → HttpConn → HttpConn
add_headers n c = (add_blank_line (add_linger (add_content_length n c).1).1).1

-- The common shape of the cases of `process_write`: status line, headers and content.
unfoldable pub add_page :
    (ℕ → Option (List ℕ)) → ℕ → List ℕ → List ℕ → HttpConn → Run (Bool × HttpConn)
unfolding add_status_line
add_page status_text status title form c = do
  (added, c) ← add_status_line status_text status title c
  ok (add_content form (add_headers (length form) c))

unfoldable pub send_buffer : HttpConn → HttpConn
send_buffer c = record c { iv = buffered c.write_idx ∷ [] }

-- Only the result of `add_content` is looked at.
unfoldable pub send_page : Bool × HttpConn → Bool × HttpConn
unfolding send_buffer
send_page (added, c) = if added then (true, send_buffer c) else (false, c)

unfoldable pub error_page :
    (ℕ → Option (List ℕ)) → ℕ → List ℕ → List ℕ → HttpConn → Run (Bool × HttpConn)
unfolding add_page send_page
error_page status_text status title form c = do
  page ← add_page status_text status title form c
  ok (send_page page)

abbrev pub error_400_form : List ℕ
error_400_form =
    codes "Your request has bas systax or is inherently impossiable to satify." ++ 10 ∷ []

abbrev pub error_403_form : List ℕ
error_403_form = codes "You do not have permission to get file from this server." ++ 10 ∷ []

abbrev pub error_404_form : List ℕ
error_404_form = codes "The requested file was not found on this server." ++ 10 ∷ []

abbrev pub error_500_form : List ℕ
error_500_form = codes "There was an unusual problem serving the requested file" ++ 10 ∷ []

abbrev pub ok_string : List ℕ
ok_string = codes "<html><body></body></html>"

-- `FILE_REQUEST`: a file that is not empty is sent behind the status line; for an empty one the page
-- is written, and the case then falls through to `default`, which returns false.
unfoldable pub file_page : (ℕ → Option (List ℕ)) → HttpConn → Run (Bool × HttpConn)
unfolding add_status_line
file_page status_text c = do
  (added, c) ← add_status_line status_text 200 (codes "OK") c
  if c.file_stat.size == 0
      then ok (false, (add_content ok_string (add_headers (length ok_string) c)).1)
      else ok (
        true,
        record c { iv = buffered c.write_idx ∷ mapped c.file_address c.file_stat.size ∷ [] },
      )

unfoldable pub process_write : (ℕ → Option (List ℕ)) → HttpCode → HttpConn → Run (Bool × HttpConn)
unfolding error_page file_page
process_write status_text internal_error c =
    error_page status_text 500 (codes "Internal Error") error_500_form c
process_write status_text bad_request c =
    error_page status_text 400 (codes "Bad Request") error_400_form c
process_write status_text no_resource c =
    error_page status_text 404 (codes "Not found") error_404_form c
process_write status_text forbidden_request c =
    error_page status_text 403 (codes "Forbidden") error_403_form c
process_write status_text file_request c = file_page status_text c
process_write status_text _ c = ok (false, c)
