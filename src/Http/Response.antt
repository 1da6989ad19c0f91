-- ===== src/Http/Response.antt =====
-- http/src/http_conn.cpp, add_response to add_content and process_write: the head of the answer, and
-- the texts of the errors. Writing to the log is left out.
pub mod Append
pub mod Answers
pub mod Head
pub mod Ends
mod Tests
use my_web_server_cmake.Prelude.{
  ℕ, ◌+◌, ◌-◌, Bool, true, false, Option, none, some, [], ◌∷◌, ◌++◌, length, take, ltb, ◌==◌,
  if◌then◌else◌, ℤ, pos,
}
use my_web_server_cmake.Http.Text.{Bytes, codes, overwrite, to_int}
use my_web_server_cmake.Http.Text.Decimal.{dec, int_dec}
use my_web_server_cmake.Http.Conn.{
  Conn, write_buff_size, HttpCode, no_request, get_request, bad_request, no_resource,
  forbidden_request, file_request, internal_error, closed_connection, Base, in_write_buff, in_file,
}
use my_web_server_cmake.Http.Request.{Run, done, fault, out_of_fuel, ◌>>=◌}

abbrev pub Wrote : Type 0
Wrote = Run (Bool × Conn)

-- `vsnprintf(m_write_buff + m_write_index, room, …)`: at most `room - 1` bytes of the text, and a NUL.
unfoldable pub vsnprintf : ℕ → Bytes → Conn → Conn
vsnprintf room text c = if room == 0 then c else record c {
  m_write_buff = overwrite c.m_write_buff c.m_write_index (take (room - 1) text ++ 0 ∷ []);
}

-- add_response, with the text that its format and arguments make. With the index at the very end the
-- room is -1, which vsnprintf takes as a `size_t` without bound.
unfoldable pub add_response : Bytes → Conn → Wrote
unfolding vsnprintf
add_response text c =
    if ltb write_buff_size c.m_write_index
    then done (false, c)
    else if c.m_write_index == write_buff_size
    then fault
    else let c' = vsnprintf (write_buff_size - c.m_write_index - 1) text c in
      if ltb (write_buff_size - c.m_write_index) (length text)
      then done (false, c')
      else done (true, record c' { m_write_index = c.m_write_index + length text })

abbrev pub crlf : Bytes
crlf = 13 ∷ 10 ∷ []

unfoldable pub add_status_line : ℕ → Bytes → Conn → Wrote
unfolding add_response
add_status_line status title =
    add_response (codes "HTTP/1.1" ++ (32 ∷ (dec status ++ (32 ∷ (title ++ crlf)))))

unfoldable pub add_content_length : ℤ → Conn → Wrote
unfolding add_response
add_content_length n = add_response (codes "Content-Length:" ++ (int_dec n ++ crlf))

unfoldable pub add_linger : Conn → Wrote
unfolding add_response
add_linger c =
    add_response
      (codes "Connection:" ++ ((if c.m_linger then codes "keep-alive" else codes "close") ++ crlf))
      c

unfoldable pub add_blank_line : Conn → Wrote
unfolding add_response
add_blank_line = add_response crlf

unfoldable pub add_content_type : Conn → Wrote
unfolding add_response
add_content_type = add_response (codes "Content-Type:text/html" ++ crlf)

unfoldable pub add_content : Bytes → Conn → Wrote
unfolding add_response
add_content = add_response

-- `a && b`, where `b` is not called if `a` is false
infixl 6 ◌&&then◌
abbrev pub ◌&&then◌ : Wrote → (Conn → Wrote) → Wrote
done (true, c) &&then k = k c
done (false, c) &&then k = done (false, c)
fault &&then k = fault
out_of_fuel &&then k = out_of_fuel

unfoldable pub add_headers : ℤ → Conn → Wrote
unfolding add_content_length add_linger add_blank_line
add_headers n c = add_content_length n c &&then add_linger &&then add_blank_line

-- The texts of the answers.
abbrev pub ok_200_title : Bytes
ok_200_title = codes "OK"

abbrev pub error_403_title : Bytes
error_403_title = codes "Forbidden"

abbrev pub error_403_form : Bytes
error_403_form = codes "You do not have permission to get file form this server." ++ 10 ∷ []

abbrev pub error_404_title : Bytes
error_404_title = codes "Not Found"

abbrev pub error_404_form : Bytes
error_404_form = codes "The requested file was not found on this server." ++ 10 ∷ []

abbrev pub error_500_title : Bytes
error_500_title = codes "Internal Error"

abbrev pub error_500_form : Bytes
error_500_form = codes "There was an unusual problem serving the request file." ++ 10 ∷ []

-- Only one iovec, for the write buffer.
unfoldable pub send_buffer : Conn → Wrote
send_buffer c = done (
  true,
  record c {
    iv0 = record { iov_base = in_write_buff (pos 0); iov_len = pos c.m_write_index };
    m_iv_count = 1;
    bytes_to_send = pos c.m_write_index;
  },
)

-- A status line, the headers, and a text that has to fit.
unfoldable pub answer_text : ℕ → Bytes → Bytes → Conn → Wrote
unfolding add_status_line add_headers add_content send_buffer
answer_text status title form c = do
  (_, c1) ← add_status_line status title c
  (_, c2) ← add_headers (pos (length form)) c1
  add_content form c2 &&then send_buffer

-- Case FILE_REQUEST. For an empty file the case has no `break`: it runs on into `default`.
unfoldable pub answer_file : Conn → Wrote
unfolding add_status_line add_headers add_content
answer_file c = do
  (_, c1) ← add_status_line 200 ok_200_title c
  if c1.m_file_stat.st_size == 0
      then (do
        (_, c2) ← add_headers (pos 26) c1
        (_, c3) ← add_content (codes "<html><body></body></html>") c2
        done (false, c3))
      else (do
        (_, c2) ← add_headers (to_int (pos c1.m_file_stat.st_size)) c1
        done (
          true,
          record c2 {
            m_iv_count = 2;
            iv0 = record { iov_base = in_write_buff (pos 0); iov_len = pos c2.m_write_index };
            iv1 = record { iov_base = in_file (pos 0); iov_len = pos c2.m_file_stat.st_size };
            bytes_to_send = to_int (pos (c2.m_write_index + c2.m_file_stat.st_size));
          },
        ))

unfoldable pub process_write : HttpCode → Conn → Wrote
unfolding answer_text answer_file
process_write internal_error c = answer_text 500 error_500_title error_500_form c
process_write bad_request c = answer_text 404 error_404_title error_404_form c
process_write forbidden_request c = answer_text 403 error_403_title error_403_form c
process_write file_request c = answer_file c
process_write _ c = done (false, c)
