-- ===== src/Http/Worker/Answered.antt =====
-- A request for a file, from process() to the end of write().
use my_web_server_cmake.Prelude.{◌+◌, ◌^◌, ◌<◌, ◌≡◌, some, [], length, pos}
use my_web_server_cmake.Http.Text.{Bytes}
use my_web_server_cmake.Http.Conn.{Conn}
use my_web_server_cmake.Http.Response.{ok_200_title}
use my_web_server_cmake.Http.Response.Append.{Holds}
use my_web_server_cmake.Http.Response.Head.{head}

-- do_request has found a file with the bytes `f`, on a connection that has answered nothing yet.
pub record FoundFile (f : Bytes) (c : Conn) : Type 0 where
  pub empty_buffer : Holds [] c
  pub file : c.m_file_address ≡ some f
  pub size : c.m_file_stat.st_size ≡ length f
  pub some_bytes : 0 < length f
  pub small : length f + 300 < 2 ^ 31
  pub unsent : c.bytes_have_send ≡ pos 0

-- The head of the answer.
abbrev pub file_head : Bytes → Conn → Bytes
file_head f c = head 200 ok_200_title (pos (length f)) c.m_linger
