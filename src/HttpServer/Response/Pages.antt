-- ===== src/HttpServer/Response/Pages.antt =====
-- The pages that `process_write` answers with.
use c_project.HttpServer.Run.Returns.{Returns, returns}
use c_project.HttpServer.Run.{Run, ok, fault, bad_argument}
use mathlib.Core.Path.{subst}
use c_project.Prelude.{
  ℕ, ◌+◌, ◌≡◌, ◌≢◌, ◌==◌, refl, ap, Bool, true, false, Option, some, none, List, [], ◌∷◌, ◌++◌,
  length, length-append, take, arith,
}
use c_project.HttpServer.CString.{codes}
use c_project.HttpServer.Conn.{
  HttpConn, write_buffer_size, HttpCode, bad_request, no_resource, forbidden_request,
  internal_error, file_request, buffered, mapped,
}
use c_project.HttpServer.Response.{
  crlf, status_line, add_response, add_content, send_page, content_length_line, linger_line,
  add_status_line, add_content_length, add_linger, add_blank_line, add_headers, add_page,
  send_buffer, error_page, file_page, error_400_form, error_403_form, error_404_form,
  error_500_form, process_write,
}
use c_project.HttpServer.Response.Buffer.{
  Appended, Appended-trans, Fits, Grows, add_response-Appended, add_status_line-printed,
  add_status_line-crash, add_content_length-Appended, add_linger-Appended, add_blank_line-Appended,
  add_content-Appended,
}

-- The headers for a content of `n` bytes, and a whole page.
abbrev pub headers_text : ℕ → Bool → List ℕ
headers_text n linger = content_length_line n ++ linger_line linger ++ crlf

abbrev pub page_text : (printed title form : List ℕ) → (linger : Bool) → List ℕ
page_text printed title form linger =
    status_line printed title ++ headers_text (length form) linger ++ form

-- The call succeeds; the bytes that wait are those from before and the text, and they are what is
-- handed to `writev`.
abbrev pub Sends : List ℕ → HttpConn → Bool × HttpConn → Type 0
Sends s c (done, c') =
    (done ≡ true)
    × (take c'.write_idx c'.write_buf ≡ take c.write_idx c.write_buf ++ s)
    × (c'.iv ≡ buffered c'.write_idx ∷ [])

add_headers-Appended :
    (n : ℕ) (c : HttpConn)
    → length c.write_buf ≡ write_buffer_size
    → Fits c (headers_text n c.linger)
    → Appended (headers_text n c.linger) c (add_headers n c)
unfolding add_headers
add_headers-Appended n c size fits = Appended-trans (Appended-trans first.1 second') third.1
  where
    total :
        length (headers_text n c.linger)
        ≡ length (content_length_line n) + length (linger_line c.linger) + length crlf
    total = omega (
      arith,
      length-append (content_length_line n ++ linger_line c.linger) crlf,
      length-append (content_length_line n) (linger_line c.linger),
    )

    first : Grows (content_length_line n) c (add_content_length n c)
    first = add_content_length-Appended c size n (omega (arith, total))

    c₁ : HttpConn
    c₁ = (add_content_length n c).1

    same : linger_line c₁.linger ≡ linger_line c.linger
    same = ap linger_line first.1.same_linger

    second : Grows (linger_line c₁.linger) c₁ (add_linger c₁)
    second = add_linger-Appended c₁ first.1.size (omega (arith, total, first.1.idx, ap length same))

    second' : Appended (linger_line c.linger) c₁ (add_linger c₁).1
    second' = subst (λ s. Appended s c₁ (add_linger c₁).1) same second.1

    third : Grows crlf (add_linger c₁).1 (add_blank_line (add_linger c₁).1)
    third =
        add_blank_line-Appended (add_linger c₁).1 second'.size
          (omega (arith, total, first.1.idx, second'.idx))

module _ (printed title form : List ℕ) (c : HttpConn)
    (size : length c.write_buf ≡ write_buffer_size)
    (fits : Fits c (page_text printed title form c.linger)) where
  abbrev line : List ℕ
  line = status_line printed title

  abbrev head : Bool → List ℕ
  head linger = headers_text (length form) linger

  total :
      length (page_text printed title form c.linger)
      ≡ length line + length (head c.linger) + length form
  total =
      omega (arith, length-append (line ++ head c.linger) form, length-append line (head c.linger))

  first : Grows line c (add_response line c)
  first = add_response-Appended line c size (omega (arith, total))

  abbrev c₁ : HttpConn
  c₁ = (add_response line c).1

  same : head c₁.linger ≡ head c.linger
  same = ap head first.1.same_linger

  second : Appended (head c₁.linger) c₁ (add_headers (length form) c₁)
  second =
      add_headers-Appended (length form) c₁ first.1.size
        (omega (arith, total, first.1.idx, ap length same))

  second' : Appended (head c.linger) c₁ (add_headers (length form) c₁)
  second' = subst (λ s. Appended s c₁ (add_headers (length form) c₁)) same second

  -- The page behind its status line.
  abbrev page : Bool × HttpConn
  page = add_content form (add_headers (length form) c₁)

  page-Appended : Grows (page_text printed title form c.linger) c page
  page-Appended =
      let (done, third) =
        add_content-Appended (add_headers (length form) c₁) second'.size form
          (omega (arith, total, first.1.idx, second'.idx)) in
      (done, Appended-trans (Appended-trans first.1 second') third)

  -- What is sent: the whole buffer, which holds the page behind what waited before.
  send_page-Sends : Sends (page_text printed title form c.linger) c (send_page page)
  unfolding send_page send_buffer
  send_page-Sends = let (done, sent) = page-Appended in rw done (refl, sent.text, refl)

  module _ (status_text : ℕ → Option (List ℕ)) (status : ℕ) where
    pub error_page-Sends :
        status_text status ≡ some printed
        → Returns
            (Sends (page_text printed title form c.linger) c)
            (error_page status_text status title form c)
    unfolding error_page add_page
    error_page-Sends e =
        rw (add_status_line-printed status_text status title c (omega (arith, total)) printed e)
          (returns send_page-Sends)

    pub error_page-crash :
        status_text status ≡ none → error_page status_text status title form c ≡ fault bad_argument
    unfolding error_page add_page
    error_page-crash e =
        rw (add_status_line-crash status_text status title c (omega (arith, total)) e) refl

-- The pages that the codes stand for.
pub record Page : Type 0 where
  pub status : ℕ
  pub title : List ℕ
  pub form : List ℕ

abbrev pub page_of : HttpCode → Option Page
page_of internal_error =
    some (record { status = 500; title = codes "Internal Error"; form = error_500_form })
page_of bad_request =
    some (record { status = 400; title = codes "Bad Request"; form = error_400_form })
page_of no_resource =
    some (record { status = 404; title = codes "Not found"; form = error_404_form })
page_of forbidden_request =
    some (record { status = 403; title = codes "Forbidden"; form = error_403_form })
page_of _ = none

abbrev pub page_bytes : (printed : List ℕ) → Page → Bool → List ℕ
page_bytes printed p linger = page_text printed p.title p.form linger

abbrev pub text_of : Option (List ℕ) → List ℕ
text_of none = []
text_of (some printed) = printed

-- What comes of a page, by what the `%s` does: a crash, or the page is sent.
abbrev pub Outcome : Option (List ℕ) → Page → HttpConn → Run (Bool × HttpConn) → Type 0
Outcome none p c r = r ≡ fault bad_argument
Outcome (some printed) p c r = Returns (Sends (page_bytes printed p c.linger) c) r

abbrev error_page_of : (ℕ → Option (List ℕ)) → Page → HttpConn → Run (Bool × HttpConn)
error_page_of status_text q = error_page status_text q.status q.title q.form

module _ (status_text : ℕ → Option (List ℕ)) (printed : List ℕ) (c : HttpConn)
    (e : status_text 200 ≡ some printed) (size : length c.write_buf ≡ write_buffer_size)
    (fits : Fits c (status_line printed (codes "OK"))) where
  abbrev ok_text : List ℕ
  ok_text = status_line printed (codes "OK")

  abbrev c₂ : HttpConn
  c₂ = (add_response ok_text c).1

  ok_line : Grows ok_text c (add_response ok_text c)
  ok_line = add_response-Appended ok_text c size fits

  -- The status line of a file, where the `%s` prints a text.
  ok_printed : add_status_line status_text 200 (codes "OK") c ≡ ok (add_response ok_text c)
  ok_printed = add_status_line-printed status_text 200 (codes "OK") c (omega arith) printed e

  -- Where the write buffer has its size, the `%s` prints a text and the status line fits,
  -- `process_write` answers with a file that is not empty by the status line, written behind what
  -- the buffer held, and the whole mapped file, and by nothing between them: no header and no empty
  -- line.
  pub process_write-file :
      c.file_stat.size ≢ 0
      → Returns
          (λ (done, c').
            (done ≡ true)
            × (take c'.write_idx c'.write_buf ≡ take c.write_idx c.write_buf ++ ok_text)
            × (c'.iv ≡ buffered c'.write_idx ∷ mapped c.file_address c.file_stat.size ∷ []))
          (process_write status_text file_request c)
  unfolding process_write file_page
  process_write-file ne =
      let there : (c₂.file_stat.size == 0) ≡ false = ground (arith, ok_line.1.same_stat) in
      rw (ok_printed, there)
        (returns (refl, ok_line.1.text, rw (ok_line.1.same_stat, ok_line.1.same_address) refl))

  -- Where the write buffer has its size, the `%s` prints a text and the status line fits,
  -- `process_write` fails for a file that is empty.
  pub process_write-empty_file :
      c.file_stat.size ≡ 0
      → Returns (λ (done, c'). done ≡ false) (process_write status_text file_request c)
  unfolding process_write file_page
  process_write-empty_file none_there =
      let empty : (c₂.file_stat.size == 0) ≡ true = ground (arith, ok_line.1.same_stat) in
      rw (ok_printed, empty) (returns refl)
