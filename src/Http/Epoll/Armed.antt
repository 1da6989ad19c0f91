-- ===== src/Http/Epoll/Armed.antt =====
-- http/src/http_conn.cpp, process() with the system calls for its socket.
use my_web_server_cmake.Prelude.{
  ℕ, ◌≡◌, ◌≢◌, ◌⊎◌, inl, inr, refl, arith, Bool, true, false, List, [], ◌∷◌, ℤ, pos, negsuc, ◌-ℤ◌,
  Option,
}
use my_web_server_cmake.Http.Conn.{
  Conn, FileStat, HttpCode, no_request, get_request, bad_request, no_resource, forbidden_request,
  file_request, internal_error, closed_connection,
}
use my_web_server_cmake.Http.Request.{Run, done, fault, out_of_fuel, Reply, ◌>>=◌}
use my_web_server_cmake.Http.ProcessRead.{process_read}
use my_web_server_cmake.Http.Response.{process_write}
use my_web_server_cmake.Http.Response.Ends.{Ends, process_write-Ends}
use my_web_server_cmake.Http.Text.{Bytes}
use my_web_server_cmake.Http.ProcessRead.Terminates.{IsReading, EndsWell}
use my_web_server_cmake.Http.DoRequest.{Users, serve}
use my_web_server_cmake.Http.DoRequest.Files.{serve-EndsWell}
use my_web_server_cmake.Http.Worker.{
  Worked, process, after_read, after_write, close_conn, is_open, modfd_in,
}
use my_web_server_cmake.Http.Epoll.{
  Events, SysCall, epoll_ctl_mod, epoll_ctl_del, close, sys_call, sys_calls,
}

-- What a one-shot socket waits for.
abbrev pub waits_for : (epollin epollout : Bool) → Events
waits_for epollin epollout = record {
  epollin = epollin;
  epollout = epollout;
  epollhup = true;
  epolloneshot = true;
}

-- What process() leaves: the connection, the count of users, and the system calls made.
pub record Left (unset : Events) (r : Run Worked) (d : Conn) (count : ℤ) (calls : List SysCall)
    : Type 0 where
  pub worked : Worked
  pub ends : r ≡ done worked
  pub conn : worked.conn ≡ d
  pub user_count : worked.user_count ≡ count
  pub calls_made : sys_calls unset worked.calls ≡ calls

-- After process_write. With an answer the socket of the connection waits for output. Without one it is
-- taken out of epoll and closed, if it was open, and a call for the descriptor -1 follows.
abbrev pub ArmedAfterWrite : Events → ℤ → Run (Bool × Conn) → Run Worked → Type 0
ArmedAfterWrite unset count (done (true, e)) r =
    Left unset r e count (epoll_ctl_mod e.m_sockfd (waits_for false true) ∷ [])
ArmedAfterWrite unset count (done (false, e)) r =
    ((e.m_sockfd ≢ negsuc 0)
      × Left unset r (record e { m_sockfd = negsuc 0 }) (count -ℤ pos 1)
          (epoll_ctl_del e.m_sockfd
            ∷ close e.m_sockfd
            ∷ epoll_ctl_mod (negsuc 0) (waits_for false true)
            ∷ []))
    ⊎ ((e.m_sockfd ≡ negsuc 0)
        × Left unset r e count (epoll_ctl_mod (negsuc 0) (waits_for false true) ∷ []))
ArmedAfterWrite unset count fault r = r ≡ fault
ArmedAfterWrite unset count out_of_fuel r = ⊥

-- After process_read. With an incomplete request the socket waits for input.
abbrev pub ArmedAfter : Events → ℤ → Reply → Run Worked → Type 0
ArmedAfter unset count (done (no_request, d)) r =
    Left unset r d count (epoll_ctl_mod d.m_sockfd (waits_for true false) ∷ [])
ArmedAfter unset count (done (code, d)) r = ArmedAfterWrite unset count (process_write code d) r
ArmedAfter unset count fault r = r ≡ fault
ArmedAfter unset count out_of_fuel r = ⊥

open_cases :
    (c : Conn)
    → ((is_open c ≡ true) × (c.m_sockfd ≢ negsuc 0))
      ⊎ ((is_open c ≡ false) × (c.m_sockfd ≡ negsuc 0))
unfolding is_open
open_cases c = ground arith

module _ (unset : Events) (count : ℤ) where
  after_write-Armed :
      (ok : Bool) (c : Conn)
      → ArmedAfterWrite unset count (done (ok, c)) (done (after_write count (ok, c)))
  unfolding after_write close_conn sys_calls sys_call
  after_write-Armed true c = record {
    worked = after_write count (true, c);
    ends = refl;
    conn = refl;
    user_count = refl;
    calls_made = refl;
  }
  after_write-Armed false c = elim (open_cases c) [
    | inl (on, some_fd) ↦ inl (
      some_fd,
      record {
        worked = after_write count (false, c);
        ends = refl;
        conn = rw (after_write, close_conn, on) refl;
        user_count = rw (after_write, close_conn, on) refl;
        calls_made = rw (after_write, close_conn, on) refl;
      },
    )
    | inr (off, no_fd) ↦ inr (
      no_fd,
      record {
        worked = after_write count (false, c);
        ends = refl;
        conn = rw (after_write, close_conn, off) refl;
        user_count = rw (after_write, close_conn, off) refl;
        calls_made = rw (after_write, close_conn, off, no_fd) refl;
      },
    )
  ]

  written :
      (r : Run (Bool × Conn))
      → Ends r
      → ArmedAfterWrite unset count r (r >>= λ b. done (after_write count b))
  written (done (ok, c)) e = after_write-Armed ok c
  written fault e = refl
  written out_of_fuel e = e

  after_read-Armed :
      (code : HttpCode) (c : Conn)
      → ArmedAfter unset count (done (code, c)) (after_read count (code, c))
  unfolding sys_calls sys_call
  after_read-Armed no_request c = record {
    worked = record { conn = c; user_count = count; calls = modfd_in c.m_sockfd ∷ [] };
    ends = refl;
    conn = refl;
    user_count = refl;
    calls_made = refl;
  }
  after_read-Armed get_request c =
      written (process_write get_request c) (process_write-Ends get_request c)
  after_read-Armed bad_request c =
      written (process_write bad_request c) (process_write-Ends bad_request c)
  after_read-Armed no_resource c =
      written (process_write no_resource c) (process_write-Ends no_resource c)
  after_read-Armed forbidden_request c =
      written (process_write forbidden_request c) (process_write-Ends forbidden_request c)
  after_read-Armed file_request c =
      written (process_write file_request c) (process_write-Ends file_request c)
  after_read-Armed internal_error c =
      written (process_write internal_error c) (process_write-Ends internal_error c)
  after_read-Armed closed_connection c =
      written (process_write closed_connection c) (process_write-Ends closed_connection c)

  go : (n : ℕ) (r : Reply) → EndsWell n r → ArmedAfter unset count r (r >>= after_read count)
  go n (done (code, d)) e = after_read-Armed code d
  go n fault e = refl
  go n out_of_fuel e = e

  -- A one-shot socket is not forgotten. On a connection whose indices are in order, with any table of
  -- users, file system and database, process_read ends, and what process() does follows from its
  -- result. If the request is incomplete, the only system call for the socket is one epoll_ctl that
  -- waits once for input. If process_write then has an answer, it is one that waits once for output.
  -- In both cases the connection and the count of users are as these functions left them. If
  -- process_write has none, and the connection is open, its socket is taken out of epoll and closed,
  -- one user is counted off, and a call for the descriptor -1 follows; if it is not open, there is only
  -- that call. A fault of one of the two functions is the one way to a fault.
  pub process-Armed :
      (mysql_query : Option ℕ → Bytes → ℕ) (stat : Bytes → Option FileStat)
      (mmap : Bytes → ℕ → Option Bytes) (users : Users) (c : Conn)
      → IsReading c
      → ArmedAfter unset count
          (process_read (serve mysql_query stat mmap users) c)
          (process (serve mysql_query stat mmap users) count c)
  unfolding process
  process-Armed mysql_query stat mmap users c reading =
      go c.m_read_index (process_read (serve mysql_query stat mmap users) c)
        (serve-EndsWell mysql_query stat mmap users c reading)
