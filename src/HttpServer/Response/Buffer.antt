-- ===== src/HttpServer/Response/Buffer.antt =====
-- `add_response` and its callers append to the write buffer or leave what it holds.
use c_project.HttpServer.Run.{ok, fault, bad_argument}
use mathlib.Core.List.{append_assoc}
use c_project.Prelude.{
  ℕ, zero, suc, ◌+◌, ◌-◌, ◌≤◌, ◌<◌, ◌≡◌, refl, sym, ap, ◌∙◌, Bool, true, false, List, [], ◌∷◌, ◌++◌,
  leb, length, length-append, take, overwrite, overwrite-append, length-overwrite, take-overwrite,
  take-overwrite_before, take-all, arith, ◌≡⟨◌⟩◌, ◌∎, Option, some, none,
}
use c_project.HttpServer.Conn.{HttpConn, write_buffer_size}
use c_project.HttpServer.Response.{
  vsnprintf, add_response, crlf, status_line, content_length_line, linger_line, add_status_line,
  add_content_length, add_linger, add_blank_line, add_content,
}

-- `s` has been put behind the bytes that wait to be sent.
pub record Appended (s : List ℕ) (c c' : HttpConn) : Type 0 where
  pub size : length c'.write_buf ≡ write_buffer_size
  pub idx : c'.write_idx ≡ c.write_idx + length s
  pub text : take c'.write_idx c'.write_buf ≡ take c.write_idx c.write_buf ++ s
  pub same_linger : c'.linger ≡ c.linger
  pub same_stat : c'.file_stat ≡ c.file_stat
  pub same_address : c'.file_address ≡ c.file_address

pub Appended-trans :
    {s t : List ℕ} {c c' c'' : HttpConn}
    → Appended s c c'
    → Appended t c' c''
    → Appended (s ++ t) c c''
Appended-trans {s} {t} {c} a b = record {
  size = b.size;
  idx = omega (arith, a.idx, b.idx, length-append s t);
  text = b.text ∙ ap (λ u. u ++ t) a.text ∙ append_assoc (take c.write_idx c.write_buf) s t;
  same_linger = b.same_linger ∙ a.same_linger;
  same_stat = b.same_stat ∙ a.same_stat;
  same_address = b.same_address ∙ a.same_address;
}

vsnprintf-take :
    (buf : List ℕ) (i size : ℕ) (s : List ℕ)
    → length s < size
    → i + length s ≤ length buf
    → take (i + length s) (vsnprintf buf i size s) ≡ take i buf ++ s
unfolding vsnprintf
vsnprintf-take buf i zero s h fits = absurd (omega arith)
vsnprintf-take buf i (suc room) s h fits =
    take (i + length s) (overwrite buf i (take room s ++ 0 ∷ []))
    ≡⟨ ap (λ u. take (i + length s) (overwrite buf i (u ++ 0 ∷ [])))
        (take-all room s (omega arith)) ⟩
      take (i + length s) (overwrite buf i (s ++ 0 ∷ []))
    ≡⟨ ap (take (i + length s)) (sym (overwrite-append buf i s (0 ∷ []))) ⟩
      take (i + length s) (overwrite (overwrite buf i s) (i + length s) (0 ∷ []))
    ≡⟨ take-overwrite_before (overwrite buf i s) (i + length s) (0 ∷ []) ⟩
      take (i + length s) (overwrite buf i s)
    ≡⟨ take-overwrite buf i s fits ⟩ take i buf ++ s ∎

length-vsnprintf :
    (buf : List ℕ) (i size : ℕ) (s : List ℕ) → length (vsnprintf buf i size s) ≡ length buf
unfolding vsnprintf
length-vsnprintf buf i zero s = refl
length-vsnprintf buf i (suc room) s = length-overwrite buf i (take room s ++ 0 ∷ [])

-- The room that a text needs: its NUL and the byte that the code keeps free.
abbrev pub Fits : HttpConn → List ℕ → Type 0
Fits c s = c.write_idx + length s < write_buffer_size - 1

-- The call succeeds, and the text is put behind what there was.
abbrev pub Grows : List ℕ → HttpConn → Bool × HttpConn → Type 0
Grows s c (done, c') = (done ≡ true) × Appended s c c'

pub add_response-Appended :
    (s : List ℕ) (c : HttpConn)
    → length c.write_buf ≡ write_buffer_size
    → Fits c s
    → Grows s c (add_response s c)
unfolding add_response
add_response-Appended s c size fits =
    let early : leb write_buffer_size c.write_idx ≡ false = ground arith in
    let room : leb (write_buffer_size - 1 - c.write_idx) (length s) ≡ false = ground arith in
    rw (early, room)
      (
        refl,
        record {
          size = length-vsnprintf c.write_buf c.write_idx (1023 - c.write_idx) s ∙ size;
          idx = refl;
          text =
              vsnprintf-take c.write_buf c.write_idx (1023 - c.write_idx) s (omega arith)
                (omega arith);
          same_linger = refl;
          same_stat = refl;
          same_address = refl;
        },
      )

module _ (status_text : ℕ → Option (List ℕ)) (status : ℕ) (title : List ℕ) (c : HttpConn)
    (room : c.write_idx < write_buffer_size) where
  pub add_status_line-printed :
      (printed : List ℕ)
      → status_text status ≡ some printed
      → add_status_line status_text status title c ≡ ok (add_response (status_line printed title) c)
  unfolding add_status_line
  add_status_line-printed printed e =
      let early : leb write_buffer_size c.write_idx ≡ false = ground arith in rw (early, e) refl

  pub add_status_line-crash :
      status_text status ≡ none → add_status_line status_text status title c ≡ fault bad_argument
  unfolding add_status_line
  add_status_line-crash e =
      let early : leb write_buffer_size c.write_idx ≡ false = ground arith in rw (early, e) refl

module _ (c : HttpConn) (size : length c.write_buf ≡ write_buffer_size) where
  pub add_content_length-Appended :
      (n : ℕ)
      → Fits c (content_length_line n)
      → Grows (content_length_line n) c (add_content_length n c)
  unfolding add_content_length
  add_content_length-Appended n = add_response-Appended (content_length_line n) c size

  pub add_linger-Appended :
      Fits c (linger_line c.linger) → Grows (linger_line c.linger) c (add_linger c)
  unfolding add_linger
  add_linger-Appended = add_response-Appended (linger_line c.linger) c size

  pub add_blank_line-Appended : Fits c crlf → Grows crlf c (add_blank_line c)
  unfolding add_blank_line
  add_blank_line-Appended = add_response-Appended crlf c size

  pub add_content-Appended : (s : List ℕ) → Fits c s → Grows s c (add_content s c)
  unfolding add_content
  add_content-Appended s = add_response-Appended s c size
