-- ===== src/HttpServer/Line/Resume.antt =====
-- A line may arrive in pieces: `parse_line` takes up where it stopped.
use c_project.Prelude.{
  ℕ, zero, suc, ◌+◌, ◌-◌, ◌≤◌, ◌<◌, ◌≡◌, refl, sym, inl, inr, Bool-cases, false, List, ◌==◌, ==→ne,
  ltb, ltb→lt, length, set, get_elem?, set-overwrite, length-overwrite, get_elem?-overwrite_before,
  arith, ap, ◌⊎◌, Option-cases,
}
use c_project.HttpServer.Run.{Run, ok, fault, over_read, ◌>>=◌, read_at}
use c_project.HttpServer.Conn.{HttpConn, LineStatus, line_open, poke}
use c_project.HttpServer.Line.{cr, lf, end_line, at_cr, at_lf, scan, parse_line}
use c_project.HttpServer.Transfer.Laws.{received}

read_at-cases :
    (buf : List ℕ) (i : ℕ) → (read_at buf i ≡ fault over_read) ⊎ ((b : ℕ) × (read_at buf i ≡ ok b))
read_at-cases buf i = elim (Option-cases (get_elem? buf i)) [
  | inl missing ↦ inl (rw missing)
  | inr (b, found) ↦ inr (b, rw found)
]

module _ (s : List ℕ) where
  -- What is done with the result for the first piece once the second one, `s`, has arrived: an
  -- unfinished line is parsed again, and any other verdict stands.
  abbrev pub carry_on : LineStatus × HttpConn → Run (LineStatus × HttpConn)
  carry_on (line_open, c) = parse_line (received s c)
  carry_on (status, c) = ok (status, received s c)

  module _ (c : HttpConn) where
    read_at-received :
        (i : ℕ) → i < c.read_idx → read_at (received s c).read_buf i ≡ read_at c.read_buf i
    read_at-received i h = rw (get_elem?-overwrite_before c.read_buf c.read_idx s i h)

    poke-received :
        (i b : ℕ)
        → i < c.read_idx
        → poke i b (received s c) ≡ (poke i b c >>= λ d. ok (received s d))
    unfolding poke
    poke-received i b h =
        let same : ltb i (length (received s c).read_buf) ≡ ltb i (length c.read_buf) =
          ap (ltb i) (length-overwrite c.read_buf c.read_idx s) in
        elim (Bool-cases (ltb i (length c.read_buf))) [
          | inl inside ↦
              rw (same, inside)
                (ap (λ buf. ok (record (received s c) { read_buf = buf }))
                  (set-overwrite c.read_buf i c.read_idx b s h))
          | inr outside ↦ rw (same, outside) refl
        ]

  end_line-received :
      (i : ℕ) (c : HttpConn)
      → i + 1 < c.read_idx
      → end_line i (received s c) ≡ (end_line i c >>= carry_on)
  unfolding end_line poke
  end_line-received i c h = elim (Bool-cases (ltb i (length c.read_buf))) [
    | inr outside ↦ rw (poke-received c i 0 (omega arith), outside) refl
    | inl inside ↦
        let d : HttpConn = record c { read_buf = set c.read_buf i 0 } in
        elim (Bool-cases (ltb (i + 1) (length d.read_buf))) [
          | inr outside ↦
              rw (poke-received c i 0 (omega arith), inside, poke-received d (i + 1) 0 h, outside)
                refl
          | inl inside' ↦
              rw (poke-received c i 0 (omega arith), inside, poke-received d (i + 1) 0 h, inside')
                refl
        ]
  ]

  at_lf-received :
      (c : HttpConn) → c.checked_idx < c.read_idx → at_lf (received s c) ≡ (at_lf c >>= carry_on)
  unfolding at_lf
  at_lf-received c h = elim (Bool-cases (ltb 1 c.checked_idx)) [
    | inr early ↦ rw early refl
    | inl late ↦ elim (read_at-cases c.read_buf (c.checked_idx - 1)) [
      | inl missing ↦ rw (late, read_at-received c (c.checked_idx - 1) (omega arith), missing) refl
      | inr (b, found) ↦ elim (Bool-cases (b == cr)) [
        | inl is_cr ↦
            rw (late, read_at-received c (c.checked_idx - 1) (omega arith), found, is_cr)
              (end_line-received (c.checked_idx - 1) c (omega (arith, ltb→lt _ _ late)))
        | inr not_cr ↦
            rw (late, read_at-received c (c.checked_idx - 1) (omega arith), found, not_cr) refl
      ]
    ]
  ]

  -- A line feed that has not arrived leaves the line open.
  at_cr-received :
      (c : HttpConn)
      → c.checked_idx < c.read_idx
      → parse_line (received s c) ≡ at_cr (received s c)
      → at_cr (received s c) ≡ (at_cr c >>= carry_on)
  unfolding at_cr
  at_cr-received c h again = elim (Bool-cases (c.checked_idx + 1 == c.read_idx)) [
    | inl final ↦ rw final (sym again)
    | inr more ↦
        let next : c.checked_idx + 1 < c.read_idx = omega (arith, ==→ne _ _ more) in
        let more' : (c.checked_idx + 1 == (c.read_idx + length s)) ≡ false = ground arith in
        elim (read_at-cases c.read_buf (c.checked_idx + 1)) [
          | inl missing ↦
              rw (more, more', read_at-received c (c.checked_idx + 1) next, missing) refl
          | inr (b, found) ↦ elim (Bool-cases (b == lf)) [
            | inl is_lf ↦
                rw (more, more', read_at-received c (c.checked_idx + 1) next, found, is_lf)
                  (end_line-received c.checked_idx c next)
            | inr not_lf ↦
                rw (more, more', read_at-received c (c.checked_idx + 1) next, found, not_lf) refl
          ]
        ]
  ]

  scan-received :
      (n : ℕ) (c : HttpConn)
      → c.checked_idx + n ≡ c.read_idx
      → scan (n + length s) (received s c) ≡ (scan n c >>= carry_on)
  unfolding scan parse_line
  scan-received zero c e = ap (λ m. scan m (received s c)) (omega arith)
  scan-received (suc n) c e =
      let same = read_at-received c c.checked_idx (omega arith) in
      let rounds : c.read_idx + length s - c.checked_idx ≡ suc (n + length s) = omega arith in
      let more : suc n + length s ≡ suc (n + length s) = omega arith in
      elim (read_at-cases c.read_buf c.checked_idx) [
        | inl missing ↦ rw (more, same, missing) refl
        | inr (b, found) ↦ elim (Bool-cases (b == cr)) [
          | inl is_cr ↦
              rw (more, same, found, is_cr)
                (at_cr-received c (omega arith) (rw (rounds, same, found, is_cr) refl))
          | inr not_cr ↦ elim (Bool-cases (b == lf)) [
            | inl is_lf ↦ rw (more, same, found, not_cr, is_lf) (at_lf-received c (omega arith))
            | inr not_lf ↦
                rw (more, same, found, not_cr, not_lf)
                  (scan-received n (record c { checked_idx = c.checked_idx + 1 }) (omega arith))
          ]
        ]
      ]

  -- A line that arrives in two pieces is scanned as if it had arrived at once. For a connection
  -- with `checked_idx` at most `read_idx`, wherever the first piece ends, between a carriage return
  -- and its line feed too: `parse_line` over both pieces gives the status and the state that it
  -- gives over the first one, with the second one behind it, where that is a verdict, and those
  -- that the next call gives once the second one is there, where the line was unfinished.
  pub parse_line_resume :
      (c : HttpConn)
      → c.checked_idx ≤ c.read_idx
      → parse_line (received s c) ≡ (parse_line c >>= carry_on)
  unfolding parse_line
  parse_line_resume c ordered =
      let rounds : c.read_idx + length s - c.checked_idx ≡ c.read_idx - c.checked_idx + length s =
        omega arith in
      rw rounds (scan-received (c.read_idx - c.checked_idx) c (omega arith))
