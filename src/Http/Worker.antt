-- ===== src/Http/Worker.antt =====
-- http/src/http_conn.cpp, read(), process(), close_conn() and init(fd, address): what the main thread
-- and the workers do with a connection. What each recv returns is an input; calls of epoll_ctl and
-- close are recorded. `m_user_count` is passed.
pub mod Received
pub mod Answered
mod Tests
use my_web_server_cmake.Prelude.{
  ℕ, ◌+◌, ◌-◌, Bool, true, false, not, Option, none, some, List, [], ◌∷◌, ◌++◌, length, take, leb,
  ◌==◌, if◌then◌else◌, ℤ, pos, negsuc, ◌+ℤ◌, ◌-ℤ◌,
}
use my_web_server_cmake.Http.Text.{Bytes, overwrite}
use my_web_server_cmake.Http.Conn.{Conn, read_buff_size, init, HttpCode, no_request}
use my_web_server_cmake.Http.Request.{Run, done, fault, out_of_fuel, Reply, ◌>>=◌}
use my_web_server_cmake.Http.ProcessRead.{process_read}
use my_web_server_cmake.Http.Response.{process_write}

-- What recv finds: bytes, of which it takes as many as there is room for; nothing yet (EAGAIN); or an
-- error. A closed connection is no bytes.
pub data Recv : Type 0 where
  arrived : Bytes → Recv
  nothing_yet failed : Recv

-- `none`: the recv of the next round has not returned.
unfoldable pub read_loop : List Recv → Conn → Option (Bool × Conn)
read_loop [] c = none
read_loop (nothing_yet ∷ rest) c = some (true, c)
read_loop (failed ∷ rest) c = some (false, c)
read_loop (arrived bytes ∷ rest) c =
    let got = take (read_buff_size - c.m_read_index) bytes in
    let more = read_loop rest (record c {
      m_read_buf = overwrite c.m_read_buf c.m_read_index got;
      m_read_index = c.m_read_index + length got;
    }) in
    if length got == 0 then some (false, c) else more

unfoldable pub read : List Recv → Conn → Option (Bool × Conn)
unfolding read_loop
read results c = if leb read_buff_size c.m_read_index then some (false, c) else read_loop results c

-- The calls on the socket.
pub data SocketCall : Type 0 where
  addfd modfd_in modfd_out removefd : (fd : ℤ) → SocketCall

-- A connection with the count of users and the calls that were made.
pub record Worked : Type 0 where
  pub conn : Conn
  pub user_count : ℤ
  pub calls : List SocketCall

-- init(fd, address): a new client
unfoldable pub init_client : (fd : ℤ) → ℤ → Conn → Worked
unfolding init
init_client fd count c = record {
  conn = init (record c { m_sockfd = fd });
  user_count = count +ℤ pos 1;
  calls = addfd fd ∷ [];
}

unfoldable pub is_open : Conn → Bool
is_open c = elim c.m_sockfd [ pos n ↦ true | negsuc n ↦ not (n == 0) ]

-- close_conn()
unfoldable pub close_conn : ℤ → Conn → Worked
unfolding is_open
close_conn count c =
    if is_open c
    then record {
      conn = record c { m_sockfd = negsuc 0 };
      user_count = count -ℤ pos 1;
      calls = removefd c.m_sockfd ∷ [];
    }
    else record { conn = c; user_count = count; calls = [] }

abbrev pub then_modfd_out : Worked → Worked
then_modfd_out w = record w { calls = w.calls ++ modfd_out w.conn.m_sockfd ∷ [] }

-- The end of process(), after process_write.
unfoldable pub after_write : ℤ → Bool × Conn → Worked
unfolding close_conn
after_write count (true, c) = record {
  conn = c;
  user_count = count;
  calls = modfd_out c.m_sockfd ∷ [];
}
after_write count (false, c) = then_modfd_out (close_conn count c)

abbrev pub after_read : ℤ → HttpCode × Conn → Run Worked
after_read count (no_request, c) =
    done (record { conn = c; user_count = count; calls = modfd_in c.m_sockfd ∷ [] })
after_read count (code, c) = process_write code c >>= λ r. done (after_write count r)

-- process(), with do_request as a parameter
unfoldable pub process : (do_request : Conn → Reply) → ℤ → Conn → Run Worked
unfolding after_write
process do_request count c = process_read do_request c >>= after_read count
