-- ===== src/HttpServer/Conn/Valid.antt =====
-- The well-formed states of a connection: the indices lie in order in the read buffer, and its last
-- byte is NUL, so that every C string in it ends there at the latest; so does `m_real_file`.
use c_project.Prelude.{
  ℕ, ◌≤◌, ◌<◌, ◌≡◌, ◌∙◌, some, List, arith, inl, inr, Bool-cases, ◌==◌, ==→eq, ==→ne, length,
  length-replicate, get_elem?-replicate, get_elem?, set, length-set, get_elem?-set_self,
  get_elem?-set_ne, lt→ltb,
}
use c_project.HttpServer.Run.{ok}
use c_project.HttpServer.Conn.{HttpConn, read_buffer_size, filename_len, init, poke}

-- The last byte of the read buffer.
abbrev pub last : ℕ
last = 2047

pub record IsValid (c : HttpConn) : Type 0 where
  pub size : length c.read_buf ≡ read_buffer_size
  pub ends : get_elem? c.read_buf last ≡ some 0
  pub room : c.read_idx ≤ last
  pub checked : c.checked_idx ≤ c.read_idx
  pub started : c.start_line ≤ c.checked_idx
  pub file_size : length c.real_file ≡ filename_len
  pub file_ends : get_elem? c.real_file 199 ≡ some 0

-- The state after a write of NUL at `i`.
abbrev pub wipe : ℕ → HttpConn → HttpConn
wipe i c = record c { read_buf = set c.read_buf i 0 }

set-zero :
    (buf : List ℕ) (i e : ℕ)
    → i < length buf
    → get_elem? buf e ≡ some 0
    → get_elem? (set buf i 0) e ≡ some 0
set-zero buf i e h zero_byte = elim (Bool-cases (i == e)) [
  | inl same ↦ rw (← ==→eq i e same) (get_elem?-set_self buf i 0 h)
  | inr other ↦ get_elem?-set_ne buf 0 (==→ne i e other) ∙ zero_byte
]

module _ {c : HttpConn} (v : IsValid c) where
  pub wipe-IsValid : (i : ℕ) → i ≤ last → IsValid (wipe i c)
  wipe-IsValid i h = record {
    size = length-set c.read_buf i 0 ∙ v.size;
    ends = set-zero c.read_buf i last (omega (arith, v.size)) v.ends;
    room = v.room;
    checked = v.checked;
    started = v.started;
    file_size = v.file_size;
    file_ends = v.file_ends;
  }

  pub poke-wipe : (i : ℕ) → i ≤ last → poke i 0 c ≡ ok (wipe i c)
  unfolding poke
  poke-wipe i h = rw (lt→ltb i (length c.read_buf) (omega (arith, v.size)))

pub init-IsValid : (c : HttpConn) → IsValid (init c)
unfolding init
init-IsValid c = record {
  size = length-replicate {A = ℕ} read_buffer_size 0;
  ends = get_elem?-replicate {A = ℕ} read_buffer_size last 0 (omega arith);
  room = omega arith;
  checked = omega arith;
  started = omega arith;
  file_size = length-replicate {A = ℕ} filename_len 0;
  file_ends = get_elem?-replicate {A = ℕ} filename_len 199 0 (omega arith);
}
