-- ===== src/Http/ProcessRead/SplitBody.antt =====
-- A POST whose body comes in one piece, and one whose body comes in two.
use my_web_server_cmake.Prelude.{
  ℕ, suc, ◌+◌, ◌-◌, ◌*◌, ◌^◌, ◌≤◌, ◌<◌, ◌≡◌, arith, refl, some, ◌++◌, length, set, pos,
}
use my_web_server_cmake.Http.Text.{Bytes}
use my_web_server_cmake.Http.Conn.{Conn, check_state_content, get_request}
use my_web_server_cmake.Http.Request.{Reply, reply, parse_content}
use my_web_server_cmake.Http.ProcessRead.{
  handle_line, round_at, round, process_read_loop, process_read,
}

-- A connection at the body of a request of `n` bytes: the headers are `before`, the bytes of the
-- buffer behind them are `body`, and `r` bytes of the buffer have been received.
abbrev pub at_body : Conn → (before body : Bytes) → (start check r n : ℕ) → Conn
at_body c before body start check r n = record c {
  m_check_state = check_state_content;
  m_content_length = pos n;
  m_read_buf = before ++ body;
  m_start_line = start;
  m_check_index = check;
  m_read_index = r;
}

module _ (do_request : Conn → Reply) where
  parse_content-whole :
      (c : Conn) (n : ℕ)
      → c.m_content_length ≡ pos n
      → c.m_check_index + n < 2 ^ 31
      → c.m_check_index + n ≤ c.m_read_index
      → c.m_check_index + n < length c.m_read_buf
      → parse_content c.m_check_index c
        ≡ reply get_request (record c {
          m_read_buf = set c.m_read_buf (c.m_check_index + n) 0;
          m_string = some c.m_check_index;
        })
  unfolding parse_content
  parse_content-whole c n e h k l = ground arith

  -- A body that has come in one piece is handed on. With all `n` bytes of the body received behind the
  -- headers, and a byte of the buffer left behind them, process_read calls do_request, with `m_string`
  -- at the start of the body and a NUL behind it.
  pub process_read-whole_body :
      (c : Conn) (before body : Bytes) (n r : ℕ)
      → let h = length before in
        h + n < 2 ^ 31
        → h + n ≤ r
        → h + n < length (before ++ body)
        → process_read do_request (at_body c before body h h r n)
          ≡ do_request (record (at_body c before body h h r n) {
            m_read_buf = set (before ++ body) (h + n) 0;
            m_string = some h;
          })
  unfolding process_read process_read_loop round round_at handle_line
  process_read-whole_body c before body n r i j k =
      rw
        (
          enough,
          process_read_loop,
          parse_content-whole (at_body c before body h h r n) n refl i j k,
        )
        refl
    where
      h : ℕ
      h = length before

      enough : 2 * (r - h) + 2 ≡ suc (2 * (r - h) + 1)
      enough = omega arith
