-- ===== src/Server/Effects.antt =====
-- main.cpp: what an event can be, and what it does to the server.
use my_web_server_cmake.Prelude.{
  ℕ, ◌+◌, ◌≡◌, Bool, true, false, not, ◌||◌, if◌then◌else◌, map, Option, none, some, List, [], ◌∷◌,
  ◌++◌, ltb, ◌&&◌, ◌==◌, ℤ, pos, negsuc, ◌-ℤ◌, ◌+ℤ◌, leb_ℤ,
}
use my_web_server_cmake.Prelude.Run.{Run, done, fault}
use my_web_server_cmake.Timer.Chain.{Entry}
use my_web_server_cmake.Timer.Holds.{Holds}
use my_web_server_cmake.Http.Conn.{Conn}
use my_web_server_cmake.Http.Text.{Bytes}
use my_web_server_cmake.Http.Worker.{SocketCall, read}
use my_web_server_cmake.ThreadPool
use my_web_server_cmake.ThreadPool.{ThreadPool}
use my_web_server_cmake.Http.Send
use my_web_server_cmake.Http.Send.{write}
use my_web_server_cmake.Server.{Server, Call, socket, epoll_del, close, send_call, max_fd}
use my_web_server_cmake.Server.Dispatch.{Event}
use my_web_server_cmake.Server.InOrder.{InOrder, data_of, retimed}

-- The client `fd` has a timer of the list.
pub record IsClient (s : Server) (fd : ℕ) : Type 0 where
  pub before : List Entry
  pub timer : Entry
  pub after : List Entry
  pub holds : Holds s.timer_lst (before ++ timer ∷ after)
  pub in_range : ltb fd max_fd ≡ true
  pub data_is : s.users_timer fd ≡ some (data_of fd (some timer.ptr))

-- What accept() returns that is no place in the arrays: an error, or a socket from MAX_FD on.
abbrev pub IsOutside : ℤ → Type 0
IsOutside (pos fd) = ltb fd max_fd ≡ false
IsOutside (negsuc n) = Unit {0}

-- What epoll and the other system calls can report to a server. A socket that is neither the listening
-- one nor the pipe is a client's; `new` gives an address that is free; the calls of recv() and writev()
-- return.
pub data Happens (listenfd pipefd : ℕ) (s : Server) (e : Event) : Type 0 where
  too_many :
      (e.fd == listenfd) ≡ true
      → leb_ℤ (pos max_fd) s.m_user_count ≡ true
      → Happens listenfd pipefd s e
  accepted :
      (fd : ℕ)
      → (e.fd == listenfd) ≡ true
      → leb_ℤ (pos max_fd) s.m_user_count ≡ false
      → e.connfd ≡ pos fd
      → ltb fd max_fd ≡ true
      → s.timer_lst.heap e.timer ≡ none
      → Happens listenfd pipefd s e
  not_accepted :
      (e.fd == listenfd) ≡ true
      → leb_ℤ (pos max_fd) s.m_user_count ≡ false
      → IsOutside e.connfd
      → Happens listenfd pipefd s e
  hung_up :
      (e.fd == listenfd) ≡ false → e.epollhup ≡ true → IsClient s e.fd → Happens listenfd pipefd s e
  signalled :
      (e.fd == listenfd) ≡ false
      → e.epollhup ≡ false
      → (e.fd == pipefd && e.epollin) ≡ true
      → Happens listenfd pipefd s e
  readable :
      (r : Bool × Conn)
      → (e.fd == listenfd) ≡ false
      → e.epollhup ≡ false
      → (e.fd == pipefd && e.epollin) ≡ false
      → e.epollin ≡ true
      → IsClient s e.fd
      → read e.recvs (s.users e.fd) ≡ some r
      → Happens listenfd pipefd s e
  writable :
      (ok : Bool) (c : Conn) (sent : Bytes) (calls : List Send.Call)
      → (e.fd == listenfd) ≡ false
      → e.epollhup ≡ false
      → (e.fd == pipefd && e.epollin) ≡ false
      → e.epollin ≡ false
      → e.epollout ≡ true
      → IsClient s e.fd
      → write e.writevs (s.users e.fd) (s.sent e.fd) ≡ Send.returned ok c sent calls
      → Happens listenfd pipefd s e
  write_faults :
      (e.fd == listenfd) ≡ false
      → e.epollhup ≡ false
      → (e.fd == pipefd && e.epollin) ≡ false
      → e.epollin ≡ false
      → e.epollout ≡ true
      → IsClient s e.fd
      → write e.writevs (s.users e.fd) (s.sent e.fd) ≡ Send.fault
      → Happens listenfd pipefd s e
  unasked :
      (e.fd == listenfd) ≡ false
      → e.epollhup ≡ false
      → (e.fd == pipefd && e.epollin) ≡ false
      → e.epollin ≡ false
      → e.epollout ≡ false
      → Happens listenfd pipefd s e

-- What an event leaves: whether main() goes on, the sequence of timers, all calls so far, and the rest
-- of the state that is no client's.
pub record Effect : Type 0 where
  pub goes_on : Bool
  pub timers : List Entry
  pub calls : List Call
  pub m_user_count : ℤ
  pub pool : ThreadPool
  pub timeout : Bool

abbrev pub unaffected : List Entry → Server → Effect
unaffected es s = record {
  goes_on = true;
  timers = es;
  calls = s.calls;
  m_user_count = s.m_user_count;
  pool = s.pool;
  timeout = s.timeout;
}

-- A client is closed and counted off, and its timer is gone.
abbrev pub dropping : (fd : ℕ) → (before after : List Entry) → Server → Effect
dropping fd before after s = record (unaffected (before ++ after) s) {
  calls = s.calls ++ epoll_del 0 fd ∷ close (pos fd) ∷ [];
  m_user_count = s.m_user_count -ℤ pos 1;
}

-- A client's timer is the last and expires three slots after `now`.
abbrev pub putting_off :
    (now : ℕ) → (before : List Entry) → Entry → (after : List Entry) → Server → Effect
putting_off now before t after s = unaffected ((before ++ after) ++ retimed (now + 15) t ∷ []) s

abbrev pub among : ℕ → List ℕ → Bool
among x [] = false
among x (y ∷ ys) = y == x || among x ys

-- The signals in front of the first SIGTERM.
abbrev pub until_sigterm : List ℕ → List ℕ
until_sigterm [] = []
until_sigterm (x ∷ xs) = if x == 15 then [] else x ∷ until_sigterm xs

abbrev pub signals_of : Option (List ℕ) → List ℕ
signals_of none = []
signals_of (some xs) = xs

-- What each event does to a server with the timers `es`; `none` is a fault.
abbrev pub effect :
    (listenfd pipefd : ℕ) (s : Server) (e : Event) (es : List Entry)
    → Happens listenfd pipefd s e
    → Option Effect
effect listenfd pipefd s e es (too_many _ _) =
    some (record (unaffected es s) { calls = s.calls ++ close e.connfd ∷ [] })
effect listenfd pipefd s e es (accepted fd _ _ _ _ _) =
    some
      (record (unaffected (es ++ record { ptr = e.timer; expire = e.now + 15; user_data = fd } ∷ [])
        s) {
          calls = s.calls ++ socket (SocketCall.addfd (pos fd)) ∷ [];
          m_user_count = s.m_user_count +ℤ pos 1;
        })
effect listenfd pipefd s e es (not_accepted _ _ _) = none
effect listenfd pipefd s e es (hung_up _ _ c) = some (dropping e.fd c.before c.after s)
effect listenfd pipefd s e es (signalled _ _ _) = some (record (unaffected es s) {
  goes_on = not (among 15 (signals_of e.signals));
  timeout = s.timeout || among 14 (until_sigterm (signals_of e.signals));
})
effect listenfd pipefd s e es (readable (true, d) _ _ _ _ c _) =
    some (record (putting_off e.now c.before c.timer c.after s) {
      pool = (ThreadPool.append (some e.fd) s.pool).1;
    })
effect listenfd pipefd s e es (readable (false, d) _ _ _ _ c _) =
    some (dropping e.fd c.before c.after s)
effect listenfd pipefd s e es (writable true d sent calls _ _ _ _ _ c _) = some (
    putting_off e.now c.before c.timer c.after
      (record s { calls = s.calls ++ map (send_call e.fd) calls }))
effect listenfd pipefd s e es (writable false d sent calls _ _ _ _ _ c _) =
    some
      (dropping e.fd c.before c.after (record s { calls = s.calls ++ map (send_call e.fd) calls }))
effect listenfd pipefd s e es (write_faults _ _ _ _ _ _ _) = none
effect listenfd pipefd s e es (unasked _ _ _ _ _) = some (unaffected es s)

-- The run `r` ends with this effect, and a server in order.
pub record Handled (now : ℕ) (x : Effect) (r : Run (Bool × Server)) : Type 0 where
  pub server : Server
  pub ends : r ≡ done (x.goes_on, server)
  pub in_order : InOrder now server x.timers
  pub calls : server.calls ≡ x.calls
  pub m_user_count : server.m_user_count ≡ x.m_user_count
  pub pool : server.pool ≡ x.pool
  pub timeout : server.timeout ≡ x.timeout

abbrev pub HasEffect : (now : ℕ) → Option Effect → Run (Bool × Server) → Type 0
HasEffect now none r = r ≡ fault
HasEffect now (some x) r = Handled now x r
