-- ===== src/Http/Samples.antt =====
-- A connection that the tests start from.
use my_web_server_cmake.Prelude.{false, none, replicate, pos}
use my_web_server_cmake.Http.Conn.{
  Conn, write_buff_size, real_file_size, check_state_requestline, get, in_write_buff, in_file,
}

abbrev pub idle : Conn
idle = record {
  mysql = none;
  m_sockfd = pos 7;
  m_read_buf = replicate 16 0;
  m_read_index = 0;
  m_write_buff = replicate write_buff_size 0;
  m_write_index = 0;
  m_check_state = check_state_requestline;
  m_start_line = 0;
  m_check_index = 0;
  m_method = get;
  m_url = none;
  m_version = none;
  m_content_length = pos 0;
  m_linger = false;
  m_host = none;
  m_string = none;
  m_real_file = replicate real_file_size 0;
  cgi = 0;
  m_file_stat = record { st_size = 3; is_dir = false; other_readable = false };
  m_file_address = none;
  iv0 = record { iov_base = in_write_buff (pos 0); iov_len = pos 0 };
  iv1 = record { iov_base = in_file (pos 0); iov_len = pos 0 };
  m_iv_count = 0;
  bytes_to_send = pos 0;
  bytes_have_send = pos 0;
}
