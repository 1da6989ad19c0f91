-- ===== src/Http/ProcessRead/Tests.antt =====
-- The theorems on process_read at small requests, with a handler that finds every request wrong.
use my_web_server_cmake.Prelude.{arith, [], ◌∷◌, ◌++◌}
use my_web_server_cmake.Http.Text.{Bytes, codes, cr, lf}
use my_web_server_cmake.Http.Conn.{Conn, bad_request}
use my_web_server_cmake.Http.Request.{Reply, reply}
use my_web_server_cmake.Http.ProcessRead.{process_read}
use my_web_server_cmake.Http.ProcessRead.Terminates.{
  IsReading, IsFinal, EndsWell, process_read-EndsWell,
}
use my_web_server_cmake.Http.Samples.{idle}

abbrev refuse : Conn → Reply
refuse c = reply bad_request c

refuse-IsFinal : (c : Conn) → IsFinal (refuse c)
refuse-IsFinal c = tt

-- A request line has been received.
abbrev started : Conn
started = record idle { m_read_buf = codes "GET /a HTTP/1.1" ++ cr ∷ lf ∷ []; m_read_index = 17 }

started-IsReading : IsReading started
started-IsReading = record { lines = omega arith; checked = omega arith; stored = omega arith }

process_read-EndsWell_example : EndsWell 17 (process_read refuse started)
process_read-EndsWell_example =
    process_read-EndsWell refuse refuse-IsFinal started started-IsReading

-- One byte of headers, and the body `ab`.
abbrev headers : Bytes
headers = 0 ∷ []

abbrev body : Bytes
body = 97 ∷ 98 ∷ 0 ∷ []
