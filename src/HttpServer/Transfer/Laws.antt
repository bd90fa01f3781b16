-- ===== src/HttpServer/Transfer/Laws.antt =====
-- What `read` and `write` do with the answers of the kernel.
use mathlib.Core.List.{flatten}
use c_project.Prelude.{
  ℕ, ◌+◌, ◌-◌, ◌*◌, ◌≤◌, ◌<◌, ◌≡◌, ◌≢◌, ◌==◌, ap, ◌∙◌, true, false, ltb, leb, List, [], ◌∷◌, ◌++◌,
  map, length, length-append, overwrite, overwrite-append, overwrite-nil, length-overwrite,
  get_elem?-overwrite_after, arith,
}
use c_project.Prelude.Int.{◌+ℤ◌, ◌-ℤ◌}
use c_project.HttpServer.Run.{ok}
use c_project.HttpServer.Conn.{HttpConn, read_buffer_size}
use c_project.HttpServer.Conn.Valid.{IsValid, last}
use c_project.HttpServer.Os.{World}
use c_project.HttpServer.Transfer.{
  Received, bytes, would_block, recv_loop, read, Written, count, finish_write, write_loop, write,
}

-- Every chunk that `recv` returned holds a byte.
abbrev pub Nonempty : List (List ℕ) → Type 0
Nonempty [] = Unit {0}
Nonempty (s ∷ ss) = (0 < length s) × Nonempty ss

-- The connection with the bytes `s` behind those received before.
abbrev pub received : List ℕ → HttpConn → HttpConn
received s c = record c {
  read_buf = overwrite c.read_buf c.read_idx s;
  read_idx = c.read_idx + length s;
}

received-received : (s t : List ℕ) (c : HttpConn) → received t (received s c) ≡ received (s ++ t) c
received-received s t c =
    ground (arith, overwrite-append c.read_buf c.read_idx s t, length-append s t)

recv_loop-flatten :
    (chunks : List (List ℕ)) (more : List Received) (c : HttpConn)
    → Nonempty chunks
    → c.read_idx + length (flatten chunks) ≤ read_buffer_size
    → recv_loop (map bytes chunks ++ would_block ∷ more) c ≡ ok (true, received (flatten chunks) c)
unfolding recv_loop flatten
recv_loop-flatten [] more c ne fits =
    let same : c ≡ received [] c = ground (arith, overwrite-nil c.read_buf c.read_idx) in
    ap (λ d. ok (true, d)) same
recv_loop-flatten (s ∷ ss) more c (byte, ne) fits =
    let some_bytes : (length s == 0) ≡ false = ground arith in
    let total = length-append s (flatten ss) in
    let inside : ltb (read_buffer_size - c.read_idx) (length s) ≡ false = ground (arith, total) in
    rw (some_bytes, inside)
      (recv_loop-flatten ss more (received s c) ne (omega (arith, total))
        ∙ ap (λ d. ok (true, d)) (received-received s (flatten ss) c))

-- `read` takes every chunk that arrives before the kernel has no more, in their order, when no
-- chunk is empty and all fit below the size of the buffer, and succeeds.
pub read-flatten :
    (chunks : List (List ℕ)) (more : List Received) (c : HttpConn)
    → Nonempty chunks
    → c.read_idx + length (flatten chunks) < read_buffer_size
    → read (map bytes chunks ++ would_block ∷ more) c ≡ ok (true, received (flatten chunks) c)
unfolding read
read-flatten chunks more c ne fits =
    let room : leb read_buffer_size c.read_idx ≡ false = ground arith in
    rw room (recv_loop-flatten chunks more c ne (omega arith))

-- What arrives keeps the connection well formed, while the last byte of the buffer stays free.
pub received-IsValid :
    (s : List ℕ) {c : HttpConn} → IsValid c → c.read_idx + length s ≤ last → IsValid (received s c)
received-IsValid s {c} v h = record {
  size = length-overwrite c.read_buf c.read_idx s ∙ v.size;
  ends = get_elem?-overwrite_after c.read_buf c.read_idx s last h ∙ v.ends;
  room = h;
  checked = omega (arith, v.checked);
  started = v.started;
  file_size = v.file_size;
  file_ends = v.file_ends;
}

-- `write` ends a transfer as finished as soon as one `writev` has sent at least half of the bytes
-- that it counts, and at most all of them, if it counts any.
pub write-half :
    (n : ℕ) (more : List Written) (w : World) (c : HttpConn)
    → c.write_idx ≢ 0
    → n ≤ c.write_idx
    → c.write_idx ≤ 2 * n
    → write (count n ∷ more) w c ≡ ok (finish_write w c)
unfolding write write_loop ◌+ℤ◌ ◌-ℤ◌
write-half n more w c ne le half = ground arith
