-- ===== src/Http/Epoll/Tests.antt =====
-- process() on a request line and an empty line, for a file that is not there.
use my_web_server_cmake.Prelude.{ℕ, arith, false, Option, none, [], ◌∷◌, ◌++◌, pos}
use my_web_server_cmake.Http.Text.{Bytes, codes}
use my_web_server_cmake.Http.Conn.{Conn, FileStat}
use my_web_server_cmake.Http.DoRequest.{serve}
use my_web_server_cmake.Http.ProcessRead.{process_read}
use my_web_server_cmake.Http.ProcessRead.Terminates.{IsReading}
use my_web_server_cmake.Http.Samples.{idle}
use my_web_server_cmake.Http.Worker.{process}
use my_web_server_cmake.Http.Epoll.{Events}
use my_web_server_cmake.Http.Epoll.Armed.{ArmedAfter, process-Armed}

abbrev received : Conn
received = record idle {
  m_read_buf = codes "GET /a HTTP/1.1" ++ 13 ∷ 10 ∷ 13 ∷ 10 ∷ 0 ∷ [];
  m_read_index = 19;
}

received-IsReading : IsReading received
received-IsReading = record { lines = omega arith; checked = omega arith; stored = omega arith }

abbrev accepts : Option ℕ → Bytes → ℕ
accepts mysql query = 0

abbrev no_file : Bytes → Option FileStat
no_file path = none

abbrev no_mapping : Bytes → ℕ → Option Bytes
no_mapping path st_size = none

abbrev unset : Events
unset = record { epollin = false; epollout = false; epollhup = false; epolloneshot = false }

process-Armed_example :
    ArmedAfter unset
      (pos 1)
      (process_read (serve accepts no_file no_mapping []) received)
      (process (serve accepts no_file no_mapping []) (pos 1) received)
process-Armed_example =
    process-Armed unset (pos 1) accepts no_file no_mapping [] received received-IsReading
