-- ===== src/HttpServer/Request/Bounds.antt =====
-- The parsers of a line stay inside the read buffer, and leave the scan where it is.
use c_project.Prelude.{
  ℕ, ◌+◌, ◌≤◌, ◌≡◌, ◌≢◌, refl, List, some, none, inl, inr, Bool-cases, Option-cases, ◌==◌, length,
  get_elem?-some, arith, ◌∙◌,
}
use c_project.HttpServer.Run.{Run, ok, ◌>>=◌}
use c_project.HttpServer.Run.Returns.{Returns, returns, Returns-mono}
use c_project.HttpServer.CString.{
  codes, strpbrk_blank, is_blank, strspn_blank, same_text, starts_with_text, strchr,
}
use c_project.HttpServer.CString.Bounds.{
  c_str_at-some, find_index-lt, strspn_blank-le, starts_with_text-length,
}
use c_project.HttpServer.Conn.{HttpConn, HttpCode, bad_request}
use c_project.HttpServer.Conn.Valid.{IsValid, last, wipe-IsValid, poke-wipe}
use c_project.HttpServer.Request.{
  text_at, accept_path, request_path, request_version, request_url, request_method,
  parse_request_line,
}

-- What a parser of a line leaves as it was.
pub record Kept (c c' : HttpConn) : Type 0 where
  pub valid : IsValid c'
  pub same_read : c'.read_idx ≡ c.read_idx
  pub same_checked : c'.checked_idx ≡ c.checked_idx
  pub same_start : c'.start_line ≡ c.start_line

abbrev pub HasUrl : HttpConn → Type 0
HasUrl c = (u : ℕ) × (c.url ≡ some u) × (u ≤ last)

-- The result of parsing a request line: it is refused, or the URL lies in the buffer.
pub record Requested (c : HttpConn) (code : HttpCode) (c' : HttpConn) : Type 0 where
  pub kept : Kept c c'
  pub found : code ≢ bad_request → HasUrl c'

abbrev pub Result : HttpConn → HttpCode × HttpConn → Type 0
Result c (code, c') = Requested c code c'

pub text_at-some :
    {c : HttpConn}
    → IsValid c
    → (i : ℕ) → i ≤ last
    → (s : List ℕ) × (text_at c i ≡ ok s) × (i + length s ≤ last)
unfolding text_at
text_at-some {c} v i h =
    let (s, read, short) = c_str_at-some c.read_buf i last h v.ends in (s, rw read, short)

refused : {c c' : HttpConn} → Kept c c' → Requested c bad_request c'
refused k = record { kept = k; found = λ ne. absurd (ne refl) }

accept_path-Requested :
    {c : HttpConn} → IsValid c → (u : ℕ) → u ≤ last → Returns (Result c) (accept_path (some u) c)
unfolding accept_path
accept_path-Requested {c} v u h =
    let (b, found) = get_elem?-some c.read_buf u (omega (arith, v.size)) in
    elim (Bool-cases (b == b'/')) [
      | inl slash ↦
          rw (found, slash) (returns (record { kept = ground arith; found = λ _. (u, refl, h) }))
      | inr other ↦ rw (found, other) (returns (refused (ground arith)))
    ]

-- The same result, seen from a connection that differs in no index.
abbrev Alike : HttpConn → HttpConn → Type 0
Alike c d =
    (d.read_idx ≡ c.read_idx) × (d.checked_idx ≡ c.checked_idx) × (d.start_line ≡ c.start_line)

Kept-Alike : {c d c' : HttpConn} → Alike c d → Kept d c' → Kept c c'
Kept-Alike (read, scan, start) k = record {
  valid = k.valid;
  same_read = k.same_read ∙ read;
  same_checked = k.same_checked ∙ scan;
  same_start = k.same_start ∙ start;
}

alike :
    {c d : HttpConn} {r : Run (HttpCode × HttpConn)}
    → Alike c d
    → Returns (Result d) r
    → Returns (Result c) r
alike same ret = Returns-mono ret λ r q. record { kept = Kept-Alike same q.kept; found = q.found }

-- Reading the string at an offset of the buffer.
pub text_at-bind :
    {A : Type 0} {P : A → Type 0} {c : HttpConn} {f : List ℕ → Run A} (v : IsValid c) (i : ℕ)
    → i ≤ last
    → ((s : List ℕ) → i + length s ≤ last → Returns P (f s))
    → Returns P (text_at c i >>= f)
text_at-bind v i h next = let (s, read, short) = text_at-some v i h in rw read (next s short)

no_path : {c : HttpConn} → IsValid c → Returns (Result c) (accept_path none c)
unfolding accept_path
no_path v = returns (refused (ground arith))

request_path-Requested :
    {c : HttpConn} → IsValid c → (u : ℕ) → u ≤ last → Returns (Result c) (request_path u c)
unfolding request_path
request_path-Requested {c} v u h = text_at-bind v u h λ target short.
    elim (Bool-cases (starts_with_text target (codes "HTTP://"))) [
      | inr other ↦ rw other (accept_path-Requested v u h)
      | inl absolute ↦ rw absolute (
          text_at-bind v (u + 7) (omega (arith, starts_with_text-length _ _ absolute))
            λ rest short'. elim (Option-cases (strchr rest b'/')) [
              | inl missing ↦ rw missing (no_path v)
              | inr (k, slash) ↦ rw slash (
                  accept_path-Requested v (u + 7 + k) (omega (arith, find_index-lt _ rest k slash)))
            ])
    ]

request_version-Requested :
    {c : HttpConn}
    → IsValid c
    → (u i : ℕ) → u ≤ last
    → i + 1 ≤ last
    → Returns (Result c) (request_version u i c)
unfolding request_version
request_version-Requested {c} v u i hu hi = rw (poke-wipe v i (omega arith)) (
    let wiped = wipe-IsValid v i (omega arith) in
    text_at-bind wiped (i + 1) hi λ blanks short.
      text_at-bind wiped (i + 1 + strspn_blank blanks) (omega (arith, strspn_blank-le blanks))
        λ protocol short'. elim (Bool-cases (same_text protocol (codes "HTTP/1.1"))) [
          | inl known ↦
              rw known (alike (refl, refl, refl) (request_path-Requested (ground arith) u hu))
          | inr unknown ↦ rw unknown (returns (refused (ground arith)))
        ])

request_url-Requested :
    {c : HttpConn} → IsValid c → (i : ℕ) → i ≤ last → Returns (Result c) (request_url i c)
unfolding request_url
request_url-Requested {c} v i h = text_at-bind v i h λ blanks short.
    text_at-bind v (i + strspn_blank blanks) (omega (arith, strspn_blank-le blanks)) λ rest short'.
      elim (Option-cases (strpbrk_blank rest)) [
        | inl missing ↦ rw missing (returns (refused (ground arith)))
        | inr (k, blank) ↦ rw blank (
            request_version-Requested v (i + strspn_blank blanks) (i + strspn_blank blanks + k)
              (omega arith) (omega (arith, find_index-lt is_blank rest k blank)))
      ]

request_method-Requested :
    {c : HttpConn}
    → IsValid c
    → (text i : ℕ) → text ≤ last
    → i + 1 ≤ last
    → Returns (Result c) (request_method text i c)
unfolding request_method
request_method-Requested {c} v text i ht hi = rw (poke-wipe v i (omega arith)) (
    let wiped = wipe-IsValid v i (omega arith) in
    text_at-bind wiped text ht λ method short. elim (Bool-cases (same_text method (codes "GET"))) [
      | inl known ↦
          rw known (alike (refl, refl, refl) (request_url-Requested (ground arith) (i + 1) hi))
      | inr unknown ↦ rw unknown (returns (refused (ground arith)))
    ])

-- On a well-formed connection, for a text inside the buffer, `parse_request_line` returns without a
-- read or a write outside the buffer; the connection stays well formed with its indices, and unless
-- the request is refused the URL lies in the buffer.
pub parse_request_line-Requested :
    {c : HttpConn}
    → IsValid c
    → (text : ℕ) → text ≤ last
    → Returns (Result c) (parse_request_line text c)
unfolding parse_request_line
parse_request_line-Requested {c} v text h = text_at-bind v text h λ line short.
    elim (Option-cases (strpbrk_blank line)) [
      | inl missing ↦ rw missing (returns (refused (ground arith)))
      | inr (k, blank) ↦ rw blank (
          request_method-Requested v text (text + k) h
            (omega (arith, find_index-lt is_blank line k blank)))
    ]
