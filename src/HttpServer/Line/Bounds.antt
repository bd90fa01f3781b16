-- ===== src/HttpServer/Line/Bounds.antt =====
-- `parse_line` stays inside the buffer, on every branch, and moves forward.
use c_project.Prelude.{
  ℕ, zero, suc, ◌+◌, ◌-◌, ◌≤◌, ◌<◌, ◌≡◌, ◌≢◌, refl, inl, inr, Bool-cases, ltb, ltb→lt, ==→ne, ◌==◌,
  get_elem?-some, arith,
}
use c_project.HttpServer.Run.{ok, read_at}
use c_project.HttpServer.Run.Returns.{Returns, returns, Returns-mono}
use c_project.HttpServer.Conn.{HttpConn, LineStatus, line_ok, line_bad, line_open}
use c_project.HttpServer.Conn.Valid.{IsValid, last, wipe-IsValid, poke-wipe}
use c_project.HttpServer.Line.{cr, lf, end_line, at_cr, at_lf, scan, parse_line}

-- What a call of `parse_line` leaves as it was, and how far it has moved.
pub record Scanned (c : HttpConn) (status : LineStatus) (c' : HttpConn) : Type 0 where
  pub valid : IsValid c'
  pub same_state : c'.check_state ≡ c.check_state
  pub same_read : c'.read_idx ≡ c.read_idx
  pub same_start : c'.start_line ≡ c.start_line
  pub same_url : c'.url ≡ c.url
  pub forward : c.checked_idx ≤ c'.checked_idx
  pub progress : status ≡ line_ok → c.checked_idx < c'.checked_idx

abbrev pub Result : HttpConn → LineStatus × HttpConn → Type 0
Result c (status, c') = Scanned c status c'

-- The connection with its scan moved on to `i`.
abbrev at : ℕ → HttpConn → HttpConn
at i c = record c { checked_idx = i }

byte_at : {c : HttpConn} → IsValid c → (i : ℕ) → i ≤ last → (b : ℕ) × (read_at c.read_buf i ≡ ok b)
byte_at {c} v i h =
    let (b, found) = get_elem?-some c.read_buf i (omega (arith, v.size)) in (b, rw found)

stay : {c : HttpConn} (status : LineStatus) → IsValid c → status ≢ line_ok → Scanned c status c
stay status v ne = record {
  valid = v;
  same_state = refl;
  same_read = refl;
  same_start = refl;
  same_url = refl;
  forward = omega arith;
  progress = λ e. absurd (ne e);
}

module _ {c : HttpConn} (v : IsValid c) where
  end_line-Scanned :
      (i : ℕ) → i + 2 ≤ c.read_idx → c.checked_idx ≤ i + 1 → Returns (Result c) (end_line i c)
  unfolding end_line
  end_line-Scanned i below above =
      let first = wipe-IsValid v i (omega (arith, v.room)) in
      let second = wipe-IsValid first (i + 1) (omega (arith, v.room)) in
      rw (poke-wipe v i (omega (arith, v.room)), poke-wipe first (i + 1) (omega (arith, v.room)))
        (returns (record {
          valid = record {
            size = second.size;
            ends = second.ends;
            room = v.room;
            checked = below;
            started = omega (arith, v.started);
            file_size = v.file_size;
            file_ends = v.file_ends;
          };
          same_state = refl;
          same_read = refl;
          same_start = refl;
          same_url = refl;
          forward = omega arith;
          progress = λ e. omega arith;
        }))

  at_cr-Scanned : c.checked_idx < c.read_idx → Returns (Result c) (at_cr c)
  unfolding at_cr
  at_cr-Scanned h = elim (Bool-cases (c.checked_idx + 1 == c.read_idx)) [
    | inl final ↦ rw final (returns (stay line_open v (cc)))
    | inr more ↦
        let (b, found) = byte_at v (c.checked_idx + 1) (omega (arith, v.room, ==→ne _ _ more)) in
        elim (Bool-cases (b == lf)) [
          | inl ends ↦
              rw (more, found, ends)
                (end_line-Scanned c.checked_idx (omega (arith, ==→ne _ _ more)) (omega arith))
          | inr bad ↦ rw (more, found, bad) (returns (stay line_bad v (cc)))
        ]
  ]

  at_lf-Scanned : c.checked_idx < c.read_idx → Returns (Result c) (at_lf c)
  unfolding at_lf
  at_lf-Scanned h = elim (Bool-cases (ltb 1 c.checked_idx)) [
    | inr early ↦ rw early (returns (stay line_bad v (cc)))
    | inl late ↦
        let (b, found) = byte_at v (c.checked_idx - 1) (omega (arith, v.room)) in
        elim (Bool-cases (b == cr)) [
          | inl ends ↦
              rw (late, found, ends)
                (end_line-Scanned (c.checked_idx - 1) (omega (arith, ltb→lt _ _ late))
                  (omega (arith, ltb→lt _ _ late)))
          | inr bad ↦ rw (late, found, bad) (returns (stay line_bad v (cc)))
        ]
  ]

at-IsValid :
    {c : HttpConn} → IsValid c → (i : ℕ) → c.checked_idx ≤ i → i ≤ c.read_idx → IsValid (at i c)
at-IsValid v i above below = record {
  size = v.size;
  ends = v.ends;
  room = v.room;
  checked = below;
  started = omega (arith, v.started);
  file_size = v.file_size;
  file_ends = v.file_ends;
}

Scanned-later :
    {c : HttpConn} {status : LineStatus} {c' : HttpConn} (i : ℕ)
    → c.checked_idx ≤ i
    → Scanned (at i c) status c'
    → Scanned c status c'
Scanned-later i above s = record {
  valid = s.valid;
  same_state = s.same_state;
  same_read = s.same_read;
  same_start = s.same_start;
  same_url = s.same_url;
  forward = omega (arith, s.forward);
  progress = λ e. omega (arith, s.progress e);
}

scan-Scanned :
    (n : ℕ) {c : HttpConn}
    → IsValid c
    → c.checked_idx + n ≡ c.read_idx
    → Returns (Result c) (scan n c)
unfolding scan
scan-Scanned zero v h = returns (stay line_open v (cc))
scan-Scanned (suc n) {c} v h =
    let (b, found) = byte_at v c.checked_idx (omega (arith, v.room)) in
    elim (Bool-cases (b == cr)) [
      | inl is_cr ↦ rw (found, is_cr) (at_cr-Scanned v (omega arith))
      | inr not_cr ↦ elim (Bool-cases (b == lf)) [
        | inl is_lf ↦ rw (found, not_cr, is_lf) (at_lf-Scanned v (omega arith))
        | inr not_lf ↦
            let next = at-IsValid v (c.checked_idx + 1) (omega arith) (omega arith) in
            rw (found, not_cr, not_lf)
              (Returns-mono (scan-Scanned n next (omega arith))
                λ r s. Scanned-later (c.checked_idx + 1) (omega arith) s)
      ]
    ]

-- On a well-formed connection `parse_line` returns, without a read or a write outside the buffer;
-- the connection stays well formed with its state, its bytes read, its line's start and its URL,
-- `checked_idx` does not go back, and for a complete line it moves on.
pub parse_line-Scanned : {c : HttpConn} → IsValid c → Returns (Result c) (parse_line c)
unfolding parse_line
parse_line-Scanned {c} v = scan-Scanned (c.read_idx - c.checked_idx) v (omega (arith, v.checked))
