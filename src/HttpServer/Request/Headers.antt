-- ===== src/HttpServer/Request/Headers.antt =====
-- `parse_headers` and `parse_content` stay inside the read buffer, up to the terminator that the
-- second writes behind the content.
use c_project.Prelude.{
  ℕ, ◌+◌, ◌≤◌, ◌≡◌, refl, inl, inr, Bool-cases, Option-cases, ◌==◌, length, ltb, ltb→lt, arith, ◌^◌,
}
use c_project.Prelude.Int.{ℤ, pos, ◌+ℤ◌, leb_ℤ, is_zero_ℤ}
use c_project.HttpServer.Run.Returns.{Returns, returns, Safe, safe, stops, Safe-bind}
use c_project.HttpServer.CString.{codes, strspn_blank, starts_with_text, same_text}
use c_project.HttpServer.CString.Bounds.{strspn_blank-le, starts_with_text-length}
use c_project.HttpServer.Conn.{HttpConn, HttpCode}
use c_project.HttpServer.Conn.Valid.{IsValid, last, wipe, wipe-IsValid}
use c_project.HttpServer.Request.{
  connection_header, length_header, host_header, end_of_headers, parse_headers, offset, end_content,
  parse_content,
}
use c_project.HttpServer.Request.Bounds.{Kept, text_at-bind}

-- The parsers behind the request line keep the URL too.
pub record Parsed (c c' : HttpConn) : Type 0 where
  pub kept : Kept c c'
  pub same_url : c'.url ≡ c.url

abbrev pub Result : HttpConn → HttpCode × HttpConn → Type 0
Result c (code, c') = Parsed c c'

parsed : {c : HttpConn} → IsValid c → Parsed c c
parsed v = ground arith

module _ {c : HttpConn} (v : IsValid c) where
  connection_header-Parsed : (i : ℕ) → i ≤ last → Returns (Result c) (connection_header i c)
  unfolding connection_header
  connection_header-Parsed i h = text_at-bind v i h λ blanks short.
      text_at-bind v (i + strspn_blank blanks) (omega (arith, strspn_blank-le blanks))
        λ option short'. elim (Bool-cases (same_text option (codes "keep-alive"))) [
          | inl known ↦ rw known (returns (ground arith))
          | inr unknown ↦ rw unknown (returns (ground arith))
        ]

  length_header-Parsed : (i : ℕ) → i ≤ last → Returns (Result c) (length_header i c)
  unfolding length_header
  length_header-Parsed i h = text_at-bind v i h λ blanks short.
      text_at-bind v (i + strspn_blank blanks) (omega (arith, strspn_blank-le blanks))
        λ number short'. returns (ground arith)

  host_header-Parsed : (i : ℕ) → i ≤ last → Returns (Result c) (host_header i c)
  unfolding host_header
  host_header-Parsed i h = text_at-bind v i h λ blanks short. returns (ground arith)

  end_of_headers-Parsed : Result c (end_of_headers c)
  unfolding end_of_headers
  end_of_headers-Parsed = elim (Bool-cases (is_zero_ℤ c.content_length)) [
    | inl empty ↦ rw empty (parsed v)
    | inr more ↦ rw more (ground arith)
  ]

  -- On a well-formed connection, for a text inside the buffer, `parse_headers` returns without a
  -- read or a write outside the buffer, and the connection stays well formed with its indices and
  -- its URL.
  pub parse_headers-Parsed : (text : ℕ) → text ≤ last → Returns (Result c) (parse_headers text c)
  unfolding parse_headers
  parse_headers-Parsed text h = text_at-bind v text h λ line short.
      elim (Bool-cases (length line == 0)) [
        | inl empty ↦ rw empty (returns end_of_headers-Parsed)
        | inr e0 ↦ elim (Bool-cases (starts_with_text line (codes "Connextion:"))) [
          | inl e1 ↦
              rw (e0, e1)
                (connection_header-Parsed (text + 11)
                  (omega (arith, starts_with_text-length _ _ e1)))
          | inr e1 ↦ elim (Bool-cases (starts_with_text line (codes "Content-Length:"))) [
            | inl e2 ↦
                rw (e0, e1, e2)
                  (length_header-Parsed (text + 15) (omega (arith, starts_with_text-length _ _ e2)))
            | inr e2 ↦ elim (Bool-cases (starts_with_text line (codes "Host:"))) [
              | inl e3 ↦
                  rw (e0, e1, e2, e3)
                    (host_header-Parsed (text + 5) (omega (arith, starts_with_text-length _ _ e3)))
              | inr e3 ↦ rw (e0, e1, e2, e3) (returns (parsed v))
            ]
          ]
        ]
      ]

  wipe-Parsed : (i : ℕ) → i ≤ last → Parsed c (wipe i c)
  wipe-Parsed i h = record {
    kept = record {
      valid = wipe-IsValid v i h;
      same_read = refl;
      same_checked = refl;
      same_start = refl;
    };
    same_url = refl;
  }

  end_content-Parsed : (text : ℕ) (n : ℤ) → Safe (Parsed c) (end_content text n c)
  unfolding end_content
  end_content-Parsed text n = elim (Option-cases (offset text n)) [
    | inl before ↦ rw (before, end_content) stops
    | inr (i, at) ↦ elim (Bool-cases (ltb i (length c.read_buf))) [
      | inl inside ↦
          rw (at, end_content, inside)
            (safe (wipe-Parsed i (omega (arith, v.size, ltb→lt _ _ inside))))
      | inr outside ↦ rw (at, end_content, outside) stops
    ]
  ]

  pub parse_content-Parsed : (text : ℕ) → Safe (Result c) (parse_content text c)
  unfolding parse_content
  parse_content-Parsed text =
      let needed = c.content_length +ℤ pos c.checked_idx in
      elim (Bool-cases (leb_ℤ (pos (2 ^ 31)) needed)) [
        | inl overflow ↦ rw overflow stops
        | inr small ↦ elim (Bool-cases (leb_ℤ needed (pos c.read_idx))) [
          | inl all ↦
              rw (small, all) (Safe-bind (end_content-Parsed text c.content_length) λ c' p. safe p)
          | inr part ↦ rw (small, part) (safe (parsed v))
        ]
      ]
