-- ===== src/HttpServer/Reader/Loop.antt =====
-- The loop of `process_read` ends within its rounds, and faults only behind the content.
use c_project.HttpServer.Run.{Run, fault, over_read}
use c_project.HttpServer.Reader.Full.{IsFull, process_read-full}
use mathlib.Core.Path.{subst}
use c_project.Prelude.{
  ℕ, zero, suc, ◌+◌, ◌-◌, ◌*◌, ◌≤◌, ◌<◌, ◌≡◌, refl, sym, ap, inl, inr, ◌⊎◌, Bool, Bool-cases, true,
  false, if◌then◌else◌, arith,
}
use c_project.HttpServer.Run.Returns.{
  Returns, returns, Returns-bind, Safe, safe, Safe-bind, Safe-of_Returns,
}
use c_project.HttpServer.Conn.{
  HttpConn, CheckState, requestline, header, content, LineStatus, line_ok, line_bad, line_open,
  HttpCode,
}
use c_project.HttpServer.Conn.Valid.{IsValid, last}
use c_project.HttpServer.Os.{Files}
use c_project.HttpServer.Line.Bounds.{Scanned, parse_line-Scanned}
use c_project.HttpServer.Request.Bounds.{text_at-some}
use c_project.HttpServer.Reader.{
  Turn, return, again, body, skips_line, is_ok, condition, continue, turn, read_loop, rounds,
  process_read,
}
use c_project.HttpServer.Reader.Safety.{IsReady, Ready, AfterTurn, dispatch-AfterTurn}

-- The connection as the body of the loop parses it.
abbrev begun : HttpConn → HttpConn
begun c = record c { start_line = c.checked_idx }

begun-IsValid : {c : HttpConn} → IsValid c → IsValid (begun c)
begun-IsValid v = ground arith

body-AfterTurn :
    (files : Files) {c : HttpConn}
    → IsReady c
    → Safe (AfterTurn c.check_state (begun c)) (body files c)
unfolding body
body-AfterTurn files {c} r =
    let v = begun-IsValid r.valid in
    let inside : c.start_line ≤ last =
      omega (arith, r.valid.started, r.valid.checked, r.valid.room) in
    let (line, read, short) = text_at-some v c.start_line inside in
    rw read (dispatch-AfterTurn files v c.start_line inside c.check_state r.ready)

-- The bytes not yet scanned, doubled, and one for content that is about to be parsed.
abbrev left : HttpConn → ℕ
left c = 2 * (c.read_idx - c.checked_idx)

flag : Bool → ℕ
flag b = if b then 1 else 0

flag-le : (b : Bool) → flag b ≤ 1
unfolding flag
flag-le true = omega arith
flag-le false = omega arith

weight : LineStatus → HttpConn → ℕ
weight status c = left c + flag (skips_line c.check_state status)

skips_content : (s : CheckState) (status : LineStatus) → skips_line s status ≡ true → s ≡ content
unfolding skips_line
skips_content content status h = refl
skips_content requestline status h = cc
skips_content header status h = cc

not_skips_open : (s : CheckState) → skips_line s line_open ≡ false
unfolding skips_line
not_skips_open content = refl
not_skips_open requestline = refl
not_skips_open header = refl

-- What the condition hands to the body: bytes were taken, or this is the round for the content.
record Admitted (status : LineStatus) (c : HttpConn) (more : Bool) (c' : HttpConn) : Type 0 where
  ready : IsReady c'
  spent :
      more ≡ true
      → (left c' + 2 ≤ left c)
        ⊎ ((left c' ≡ left c)
            × (c'.check_state ≡ content)
            × (skips_line c.check_state status ≡ true))

Scanned-IsReady :
    {c : HttpConn} {found : LineStatus} {c' : HttpConn}
    → Scanned c found c'
    → IsReady c
    → IsReady c'
Scanned-IsReady {c} {c'} s r =
    let here : Ready c.check_state c'.url =
      subst (λ y. Ready c.check_state y) (sym s.same_url) r.ready in
    record { valid = s.valid; ready = subst (λ x. Ready x c'.url) (sym s.same_state) here }

Scanned-left :
    {c : HttpConn} {found : LineStatus} {c' : HttpConn}
    → Scanned c found c'
    → is_ok found ≡ true
    → left c' + 2 ≤ left c
Scanned-left {found = line_ok} s e = omega (arith, s.progress refl, s.same_read, s.valid.checked)
Scanned-left {found = line_bad} s e = cc
Scanned-left {found = line_open} s e = cc

condition-Admitted :
    (status : LineStatus) {c : HttpConn}
    → IsReady c
    → Returns (λ (more, c'). Admitted status c more c') (condition status c)
unfolding condition
condition-Admitted status {c} r = elim (Bool-cases (skips_line c.check_state status)) [
  | inl skips ↦ rw skips (
      returns (record {
        ready = r;
        spent = λ e. inr (refl, skips_content c.check_state status skips, skips);
      }))
  | inr scans ↦ rw scans (
      Returns-bind (parse_line-Scanned r.valid) λ (found, c') s.
        returns (record { ready = Scanned-IsReady s r; spent = λ e. inl (Scanned-left s e) }))
]

-- A round leaves less weight than there was.
lighter :
    (status : LineStatus) (c c' : HttpConn) (status'' : LineStatus) (c'' : HttpConn)
    → Admitted status c true c'
    → (c''.read_idx ≡ c'.read_idx)
    → (c''.checked_idx ≡ c'.checked_idx)
    → (c'.check_state ≡ content → status'' ≡ line_open)
    → weight status'' c'' < weight status c
unfolding weight flag
lighter status c c' status'' c'' a read scan next = elim (a.spent refl) [
  | inl fell ↦ omega (arith, flag-le (skips_line c''.check_state status''))
  | inr (same, is_content, skips) ↦
      let closed : skips_line c''.check_state status'' ≡ false =
        rw (next is_content) (not_skips_open c''.check_state) in
      omega (arith, ap flag skips, ap flag closed)
]

fits : (c : HttpConn) → weight line_ok c < rounds c
unfolding weight
fits c = omega (arith, flag-le (skips_line c.check_state line_ok))

-- What the recursive call promises.
abbrev Promise : Files → ℕ → Type 0
Promise files fuel =
    (status : LineStatus) (c : HttpConn)
    → IsReady c
    → weight status c < fuel
    → Safe (λ r. IsValid r.1) (read_loop files fuel status c)

module _ (files : Files) (fuel : ℕ) (status : LineStatus) (c : HttpConn) where
  after_turn :
      (c' : HttpConn)
      → Admitted status c true c'
      → weight status c < suc fuel
      → Promise files fuel
      → (t : Turn) → AfterTurn c'.check_state (begun c') t
      → Safe (λ r. IsValid r.1) (continue (read_loop files fuel) t)
  unfolding continue
  after_turn c' a h ih (return code c'') v = safe v
  after_turn c' a h ih (again status'' c'') (r, read, scan, next) =
      ih status'' c'' r (omega (arith, lighter status c c' status'' c'' a read scan next))

  enter_turn :
      (more : Bool) (c' : HttpConn)
      → Admitted status c more c'
      → weight status c < suc fuel
      → Promise files fuel
      → Safe (λ r. IsValid r.1) (turn files (read_loop files fuel) more c')
  unfolding turn
  enter_turn true c' a h ih =
      Safe-bind (body-AfterTurn files a.ready) λ t after. after_turn c' a h ih t after
  enter_turn false c' a h ih = safe a.ready.valid

read_loop-IsValid : (files : Files) (fuel : ℕ) → Promise files fuel
unfolding read_loop
read_loop-IsValid files zero status c r h = absurd (omega arith)
read_loop-IsValid files (suc fuel) status c r h =
    Safe-bind (Safe-of_Returns (condition-Admitted status r))
      λ (more, c') a. enter_turn files fuel status c more c' a h (read_loop-IsValid files fuel)

-- What is promised of the two kinds of connection.
abbrev pub Ends : {c : HttpConn} → IsReady c ⊎ IsFull c → Run (HttpCode × HttpConn) → Type 0
Ends (inl ready) r = Safe (λ (code, c'). IsValid c') r
Ends (inr full) r = r ≡ fault over_read

-- For every state of the files and every connection of two kinds. On a well-formed one, whose read
-- buffer is not full (at most 2047 bytes have been read, and the last byte is NUL), and on which,
-- unless its request line is still to be parsed, the URL lies in the read buffer, `process_read`
-- ends within its rounds: it returns a code and a well-formed connection, or it stops at the one
-- write whose place the peer chooses, that of the NUL behind the content (outside the buffer, or
-- past the range of `int`); it makes no other read or write outside its buffers. On one that is
-- reading its content, with no NUL between the start of the line and the end of the buffer, as
-- there may be none once `read` has filled all 2048 bytes, `process_read` reads past the end of the
-- buffer.
pub process_read-IsValid :
    (files : Files) (c : HttpConn) (s : IsReady c ⊎ IsFull c) → Ends s (process_read files c)
unfolding process_read
process_read-IsValid files c (inl ready) =
    read_loop-IsValid files (rounds c) line_ok c ready (fits c)
process_read-IsValid files c (inr full) = process_read-full files c full
