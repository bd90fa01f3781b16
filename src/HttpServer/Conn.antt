-- ===== src/HttpServer/Conn.antt =====
-- `class http_conn` of http_conn.h: its constants, its enumerations, its fields and `init()`.
-- A pointer into `m_read_buf` is an offset into it, `none` is the null pointer, and `none` in
-- `sockfd` is -1. The fields `m_iv` and `m_iv_count` are the list `iv`.
pub mod Valid
use c_project.Prelude.{
  ℕ, Bool, false, Option, none, List, ltb, if◌then◌else◌, length, replicate, set,
}
use c_project.Prelude.Int.{ℤ, pos}
use c_project.HttpServer.Run.{Run, ok, fault, over_write}

abbrev pub filename_len : ℕ
filename_len = 200

abbrev pub read_buffer_size : ℕ
read_buffer_size = 2048

abbrev pub write_buffer_size : ℕ
write_buffer_size = 1024

pub data Method : Type 0 where
  get post head put delete trace options connect patch : Method

pub data CheckState : Type 0 where
  requestline header content : CheckState

pub data HttpCode : Type 0 where
  no_request get_request bad_request no_resource forbidden_request file_request : HttpCode
  internal_error closed_connection : HttpCode

pub data LineStatus : Type 0 where
  line_ok line_bad line_open : LineStatus

-- `struct stat`: the fields that the program reads.
pub record Stat : Type 0 where
  pub mode : ℕ
  pub size : ℕ

-- An element of `m_iv`: the bytes of the write buffer, or of the mapped file.
pub data Segment : Type 0 where
  buffered : ℕ → Segment
  mapped : Option ℕ → ℕ → Segment

pub record HttpConn : Type 0 where
  pub sockfd : Option ℕ
  pub address : ℕ
  pub read_buf : List ℕ
  pub read_idx : ℕ
  pub checked_idx : ℕ
  pub start_line : ℕ
  pub write_buf : List ℕ
  pub write_idx : ℕ
  pub check_state : CheckState
  pub method : Method
  pub real_file : List ℕ
  pub url : Option ℕ
  pub version : Option ℕ
  pub host : Option ℕ
  pub content_length : ℤ
  pub linger : Bool
  pub file_address : Option ℕ
  pub file_stat : Stat
  pub iv : List Segment

unfoldable pub init : HttpConn → HttpConn
init c = record c {
  check_state = requestline;
  linger = false;
  method = get;
  url = none;
  version = none;
  content_length = pos 0;
  host = none;
  start_line = 0;
  checked_idx = 0;
  read_idx = 0;
  write_idx = 0;
  read_buf = replicate read_buffer_size 0;
  write_buf = replicate write_buffer_size 0;
  real_file = replicate filename_len 0;
}

-- `m_read_buf[i] = b`
unfoldable pub poke : ℕ → ℕ → HttpConn → Run HttpConn
poke i b c =
    if ltb i (length c.read_buf)
    then ok (record c { read_buf = set c.read_buf i b })
    else fault over_write
