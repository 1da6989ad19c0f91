-- ===== src/Http/Conn.antt =====
-- http/include/http_conn.h: the enumerations, the sizes and the fields of `http_conn`, and init().
-- Pointers into `m_read_buf` are indices into it, NULL is `none`. A mapped file is the bytes that can
-- be read from it.
use my_web_server_cmake.Prelude.{ℕ, Bool, false, Option, none, replicate, ℤ, pos}
use my_web_server_cmake.Http.Text.{Bytes}

abbrev pub read_buff_size : ℕ
read_buff_size = 2048

abbrev pub write_buff_size : ℕ
write_buff_size = 1024

abbrev pub real_file_size : ℕ
real_file_size = 200

-- METHOD
pub data Method : Type 0 where
  get post head put delete trace options connect path : Method

-- CHECK_STATE
pub data CheckState : Type 0 where
  check_state_requestline check_state_header check_state_content : CheckState

-- HTTP_CODE
pub data HttpCode : Type 0 where
  no_request get_request bad_request no_resource forbidden_request : HttpCode
  file_request internal_error closed_connection : HttpCode

-- What the program reads of a `struct stat`.
pub record FileStat : Type 0 where
  pub st_size : ℕ
  pub is_dir : Bool
  pub other_readable : Bool

-- Where an iovec points: into `m_write_buff`, or into the mapped file. The offset is signed, as
-- pointer arithmetic may leave the array.
pub data Base : Type 0 where
  in_write_buff in_file : ℤ → Base

pub record Iovec : Type 0 where
  pub iov_base : Base
  pub iov_len : ℤ

pub record Conn : Type 0 where
  pub mysql : Option ℕ
  pub m_sockfd : ℤ
  pub m_read_buf : Bytes
  pub m_read_index : ℕ
  pub m_write_buff : Bytes
  pub m_write_index : ℕ
  pub m_check_state : CheckState
  pub m_start_line : ℕ
  pub m_check_index : ℕ
  pub m_method : Method
  pub m_url : Option ℕ
  pub m_version : Option ℕ
  pub m_content_length : ℤ
  pub m_linger : Bool
  pub m_host : Option ℕ
  pub m_string : Option ℕ
  pub m_real_file : Bytes
  pub cgi : ℕ
  pub m_file_stat : FileStat
  pub m_file_address : Option Bytes
  pub iv0 : Iovec
  pub iv1 : Iovec
  pub m_iv_count : ℕ
  pub bytes_to_send : ℤ
  pub bytes_have_send : ℤ

-- http_conn::init(). The socket, `m_file_stat`, `m_iv` and `m_iv_count` are left as they are.
unfoldable pub init : Conn → Conn
init c = record c {
  mysql = none;
  m_read_index = 0;
  m_check_state = check_state_requestline;
  m_start_line = 0;
  m_check_index = 0;
  m_method = get;
  m_url = none;
  m_version = none;
  m_content_length = pos 0;
  m_linger = false;
  m_host = none;
  m_string = none;
  cgi = 0;
  m_file_address = none;
  m_read_buf = replicate read_buff_size 0;
  m_real_file = replicate real_file_size 0;
  m_write_buff = replicate write_buff_size 0;
  m_write_index = 0;
  bytes_to_send = pos 0;
  bytes_have_send = pos 0;
}
