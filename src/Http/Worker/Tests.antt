-- ===== src/Http/Worker/Tests.antt =====
-- The theorems on read() and process().
use my_web_server_cmake.Prelude.{
  ℕ, ◌≡◌, arith, true, false, some, [], ◌∷◌, length-replicate, replicate,
}
use my_web_server_cmake.Http.Text.{Bytes, codes}
use my_web_server_cmake.Http.Conn.{Conn, file_request, read_buff_size}
use my_web_server_cmake.Http.Request.{Reply, reply}
use my_web_server_cmake.Http.ProcessRead.SplitBody.{at_body}
use my_web_server_cmake.Http.Worker.{nothing_yet, read}
use my_web_server_cmake.Http.Worker.Received.{ReadMore, arrivals, read-arrivals}
use my_web_server_cmake.Http.Samples.{idle}

abbrev opened : Conn
opened = record idle { m_read_buf = replicate read_buff_size 0 }

read-arrivals_example :
    (d : Conn) × (read (arrivals (codes "GET" ∷ codes " /" ∷ []) (nothing_yet ∷ [])) opened
      ≡ some (true, d))
    × ReadMore opened d (codes "GET /")
read-arrivals_example =
    read-arrivals (codes "GET" ∷ codes " /" ∷ []) [] opened (ground arith)
      (length-replicate {A = ℕ} 2048 0) (omega arith) (omega arith)

abbrev file : Bytes
file = codes "page"

abbrev found : Conn
found = record idle {
  m_file_stat = record { st_size = 4; is_dir = false; other_readable = true };
  m_file_address = some file;
}

-- do_request finds the file for any request.
abbrev finds : Conn → Reply
finds c = reply file_request found

abbrev waiting : Conn
waiting = at_body idle (0 ∷ []) (97 ∷ 0 ∷ []) 1 1 2 1
