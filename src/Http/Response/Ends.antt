-- ===== src/Http/Response/Ends.antt =====
-- http/src/http_conn.cpp, process_write and the functions that it calls: how they end.
use my_web_server_cmake.Prelude.{
  ℕ, ◌-◌, true, false, ◌∷◌, ◌++◌, length, ltb, ◌==◌, if◌then◌else◌, ℤ, pos, Bool-cases, inl, inr,
}
use my_web_server_cmake.Http.Text.{Bytes, codes, to_int}
use my_web_server_cmake.Http.Text.Decimal.{dec, int_dec}
use my_web_server_cmake.Http.Conn.{
  Conn, write_buff_size, HttpCode, no_request, get_request, bad_request, no_resource,
  forbidden_request, file_request, internal_error, closed_connection,
}
use my_web_server_cmake.Http.Request.{Run, done, fault, out_of_fuel, ◌>>=◌}
use my_web_server_cmake.Http.Response.{
  Wrote, add_response, add_status_line, add_content_length, add_linger, add_blank_line, add_content,
  ◌&&then◌, add_headers, send_buffer, answer_text, answer_file, process_write, crlf, ok_200_title,
  error_403_title, error_403_form, error_404_title, error_404_form, error_500_title, error_500_form,
}

-- The run ends, perhaps with a fault.
abbrev pub Ends : {A : Type 0} → Run A → Type 0
Ends (done a) = Unit {0}
Ends fault = Unit {0}
Ends out_of_fuel = ⊥

pub Ends-bind :
    {A B : Type 0} → (r : Run A) (k : A → Run B) → Ends r → ((a : A) → Ends (k a)) → Ends (r >>= k)
Ends-bind (done a) k e f = f a
Ends-bind fault k e f = tt
Ends-bind out_of_fuel k e f = e

Ends-then : (r : Wrote) (k : Conn → Wrote) → Ends r → ((c : Conn) → Ends (k c)) → Ends (r &&then k)
Ends-then (done (true, c)) k e f = f c
Ends-then (done (false, c)) k e f = tt
Ends-then fault k e f = tt
Ends-then out_of_fuel k e f = e

add_response-Ends : (text : Bytes) (c : Conn) → Ends (add_response text c)
unfolding add_response
add_response-Ends text c = elim (Bool-cases (ltb write_buff_size c.m_write_index)) [
  | inl over ↦ rw (add_response, over) tt
  | inr under ↦ elim (Bool-cases (c.m_write_index == write_buff_size)) [
    | inl at_end ↦ rw (add_response, under, at_end) tt
    | inr room ↦ elim (Bool-cases (ltb (write_buff_size - c.m_write_index) (length text))) [
      | inl long ↦ rw (add_response, under, room, long) tt
      | inr fits ↦ rw (add_response, under, room, fits) tt
    ]
  ]
]

add_status_line-Ends :
    (status : ℕ) (title : Bytes) (c : Conn) → Ends (add_status_line status title c)
unfolding add_status_line
add_status_line-Ends status title c =
    add_response-Ends (codes "HTTP/1.1" ++ (32 ∷ (dec status ++ (32 ∷ (title ++ crlf))))) c

add_content_length-Ends : (n : ℤ) (c : Conn) → Ends (add_content_length n c)
unfolding add_content_length
add_content_length-Ends n c = add_response-Ends (codes "Content-Length:" ++ (int_dec n ++ crlf)) c

add_linger-Ends : (c : Conn) → Ends (add_linger c)
unfolding add_linger
add_linger-Ends c =
    add_response-Ends
      (codes "Connection:" ++ ((if c.m_linger then codes "keep-alive" else codes "close") ++ crlf))
      c

add_headers-Ends : (n : ℤ) (c : Conn) → Ends (add_headers n c)
unfolding add_headers add_blank_line
add_headers-Ends n c =
    Ends-then (add_content_length n c &&then add_linger) add_blank_line
      (Ends-then (add_content_length n c) add_linger (add_content_length-Ends n c) add_linger-Ends)
      (add_response-Ends crlf)

answer_text-Ends :
    (status : ℕ) (title form : Bytes) (c : Conn) → Ends (answer_text status title form c)
unfolding answer_text add_content send_buffer
answer_text-Ends status title form c =
    Ends-bind (add_status_line status title c) _ (add_status_line-Ends status title c) (λ r.
      Ends-bind (add_headers (pos (length form)) r.1) _ (add_headers-Ends (pos (length form)) r.1)
        (λ s. Ends-then (add_content form s.1) send_buffer (add_response-Ends form s.1) (λ d. tt)))

answer_file-Ends : (c : Conn) → Ends (answer_file c)
unfolding answer_file add_content
answer_file-Ends c =
    Ends-bind (add_status_line 200 ok_200_title c) _ (add_status_line-Ends 200 ok_200_title c) (λ r.
      elim (Bool-cases (r.1.m_file_stat.st_size == 0)) [
        | inl nothing ↦ rw nothing (
            Ends-bind (add_headers (pos 26) r.1) _ (add_headers-Ends (pos 26) r.1) (λ s.
              Ends-bind (add_content (codes "<html><body></body></html>") s.1) _
                (add_response-Ends (codes "<html><body></body></html>") s.1) (λ d. tt)))
        | inr bytes ↦
            let n = to_int (pos r.1.m_file_stat.st_size) in
            rw bytes (Ends-bind (add_headers n r.1) _ (add_headers-Ends n r.1) (λ s. tt))
      ])

pub process_write-Ends : (code : HttpCode) (c : Conn) → Ends (process_write code c)
unfolding process_write
process_write-Ends internal_error c = answer_text-Ends 500 error_500_title error_500_form c
process_write-Ends bad_request c = answer_text-Ends 404 error_404_title error_404_form c
process_write-Ends forbidden_request c = answer_text-Ends 403 error_403_title error_403_form c
process_write-Ends file_request c = answer_file-Ends c
process_write-Ends no_request c = tt
process_write-Ends get_request c = tt
process_write-Ends no_resource c = tt
process_write-Ends closed_connection c = tt
