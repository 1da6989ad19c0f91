-- ===== src/Http/ProcessRead.antt =====
-- http/src/http_conn.cpp, process_read: the outer state machine. The rest of a complete request is
-- handled by do_request, which is a parameter here.
pub mod Frame
pub mod Terminates
pub mod SplitBody
mod Tests
use my_web_server_cmake.Prelude.{ℕ, zero, suc, ◌+◌, ◌-◌, ◌*◌, Bool, true, false}
use my_web_server_cmake.Http.Conn.{
  Conn, CheckState, check_state_requestline, check_state_header, check_state_content, HttpCode,
  no_request, get_request, bad_request,
}
use my_web_server_cmake.Http.Line.{LineStatus, line_ok, line_bad, line_open, LineResult, parse_line}
use my_web_server_cmake.Http.Request.{
  Run, done, fault, out_of_fuel, Reply, reply, parse_request_line, parse_headers, parse_content,
}

-- What one line does to the loop of process_read: it ends the function, or gives the next
-- `line_status`.
pub data Next : Type 0 where
  stop : Reply → Next
  again : LineStatus → Conn → Next

-- `if (ret == BAD_REQUEST) return BAD_REQUEST;`
abbrev pub after_request_line : Reply → Next
after_request_line (done (bad_request, c)) = stop (reply bad_request c)
after_request_line (done (code, c)) = again line_ok c
after_request_line fault = stop fault
after_request_line out_of_fuel = stop out_of_fuel

module _ (do_request : Conn → Reply) where
  abbrev pub after_headers : HttpCode × Conn → Next
  after_headers (bad_request, c) = stop (reply bad_request c)
  after_headers (get_request, c) = stop (do_request c)
  after_headers (code, c) = again line_ok c

  abbrev pub after_content : Reply → Next
  after_content (done (get_request, c)) = stop (do_request c)
  after_content (done (code, c)) = again line_open c
  after_content fault = stop fault
  after_content out_of_fuel = stop out_of_fuel

  -- The `switch` on `m_check_state`, at the line that starts at `text`.
  unfoldable pub handle_line : CheckState → ℕ → Conn → Next
  handle_line check_state_requestline text c = after_request_line (parse_request_line text c)
  handle_line check_state_header text c = after_headers (parse_headers text c)
  handle_line check_state_content text c = after_content (parse_content text c)

  -- `text = get_line(); m_start_line = m_check_index;` and the switch
  unfoldable pub process_line : Conn → Next
  unfolding handle_line
  process_line c =
      handle_line c.m_check_state c.m_start_line (record c { m_start_line = c.m_check_index })

  -- `m_read_buf` and `m_check_index` as parse_line leaves them
  abbrev pub after_line : Conn → LineResult → Conn
  after_line c o = record c { m_read_buf = o.buf; m_check_index = o.check_index }

  -- The head of the loop: the line to handle is there, or parse_line is called for it. `none` stops
  -- the loop.
  abbrev pub needs_line : LineStatus → CheckState → Bool
  needs_line line_ok check_state_content = false
  needs_line _ _ = true

  abbrev pub line_there : Conn → LineStatus → Next
  line_there c line_ok = process_line c
  line_there c _ = stop (reply no_request c)

  unfoldable pub round_at : LineStatus → CheckState → Conn → Next
  unfolding process_line
  round_at status state c = elim (needs_line status state) [
    | false ↦ handle_line state c.m_start_line (record c { m_start_line = c.m_check_index })
    | true ↦
        let o = parse_line c.m_read_buf c.m_read_index c.m_check_index in
        line_there (after_line c o) o.status
  ]

  -- One evaluation of the loop's condition and, where it holds, of its body.
  unfoldable pub round : LineStatus → Conn → Next
  unfolding round_at
  round status c = round_at status c.m_check_state c

  -- `out_of_fuel` if the rounds do not suffice.
  unfoldable pub process_read_loop : ℕ → LineStatus → Conn → Reply
  process_read_loop zero status c = out_of_fuel
  process_read_loop (suc n) status c = elim (round status c) [
    | stop r ↦ r
    | again status' c' ↦ process_read_loop n status' c'
  ]

  unfoldable pub process_read : Conn → Reply
  unfolding process_read_loop
  process_read c = process_read_loop (2 * (c.m_read_index - c.m_check_index) + 2) line_ok c
