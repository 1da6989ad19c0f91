-- ===== src/Server.antt =====
-- main.cpp: the handling of the events that epoll_wait reports, the signals, and the timers of the
-- clients. What the system calls return is an input. An element of the arrays `users` and `users_timer`
-- is named by its index, which is the client's socket. An access outside them, or of what was never
-- written, is a `fault`. `out_of_fuel` is also a call that the inputs leave without a result.
pub mod Dispatch
pub mod Expired
pub mod InOrder
pub mod Clients
pub mod Accept
pub mod Events
pub mod Effects
pub mod Handle
pub mod Faults
pub mod Rounds
pub mod Sizes
pub mod Loop
pub mod Reused
mod Tests
use my_web_server_cmake.Prelude.{
  ℕ, zero, suc, ◌+◌, ◌*◌, Bool, true, false, Option, none, some, List, [], ◌∷◌, ◌++◌, ltb, ◌==◌,
  ◌&&◌, if◌then◌else◌, ℤ, pos, negsuc, ◌-ℤ◌, leb_ℤ, map,
}
use my_web_server_cmake.Prelude.Run.{Run, done, fault, out_of_fuel, ◌>>=◌}
use my_web_server_cmake.Timer
use my_web_server_cmake.Timer.{
  UtilTimer, Heap, SortTimerLst, add_timer, adjust_timer, del_timer, tick,
}
use my_web_server_cmake.Http.Text.{Bytes}
use my_web_server_cmake.Http.Conn.{Conn}
use my_web_server_cmake.Http.Worker.{Recv, Worked, SocketCall, init_client, read}
use my_web_server_cmake.Http.Send.{Writev, Outcome, write}
use my_web_server_cmake.Http.Send
use my_web_server_cmake.ThreadPool.{ThreadPool}
use my_web_server_cmake.ThreadPool

abbrev pub max_fd : ℕ
max_fd = 65535

abbrev pub timeslot : ℕ
timeslot = 5

-- timer/include/lst_timer.h, client_data, without the address
pub record ClientData : Type 0 where
  pub sockfd : ℕ
  pub timer : Option ℕ

-- The system calls that main.cpp makes. `epollfd` of cb_func is the static variable, which stays 0:
-- main() declares another.
pub data Call : Type 0 where
  socket : SocketCall → Call
  epoll_del : (epollfd fd : ℕ) → Call
  close : ℤ → Call
  alarm : ℕ → Call
  unmapped : Call

-- `sent` is what write() has sent to each client.
pub record Server : Type 0 where
  pub timer_lst : SortTimerLst
  pub users_timer : ℕ → Option ClientData
  pub users : ℕ → Conn
  pub sent : ℕ → Bytes
  pub m_user_count : ℤ
  pub pool : ThreadPool
  pub timeout : Bool
  pub calls : List Call

unfoldable pub update : {A : Type 0} → ℕ → A → (ℕ → A) → ℕ → A
update i x f j = if i == j then x else f j

-- `users_timer[fd]`
unfoldable pub client : ℕ → Server → Run ClientData
client fd s =
    if ltb fd max_fd then elim (s.users_timer fd) [ none ↦ fault | some d ↦ done d ] else fault

-- cb_func
unfoldable pub cb_func : ClientData → Server → Server
cb_func user_data s = record s {
  calls = s.calls ++ epoll_del 0 user_data.sockfd ∷ close (pos user_data.sockfd) ∷ [];
  m_user_count = s.m_user_count -ℤ pos 1;
}

-- `timer->cb_func(&users_timer[fd]); if (timer) timer_lst.del_timer(timer);`
unfoldable pub drop_client : ClientData → Server → Run Server
unfolding cb_func
drop_client user_data s = do
  t ← Timer.load s.timer_lst.heap user_data.timer
  l ← del_timer user_data.timer s.timer_lst
  done (record (cb_func user_data s) { timer_lst = l })

-- `timer->expire = expire`
unfoldable pub set_expire : ℕ → ℕ → Heap → Run Heap
set_expire timer expire h = do
  t ← Timer.load h (some timer)
  done (Timer.put h timer (some (record t { expire = expire })))

-- `if (timer)`: it is put off by three slots.
unfoldable pub put_off : (fuel now : ℕ) → Option ℕ → Server → Run Server
unfolding set_expire
put_off fuel now none s = done s
put_off fuel now (some timer) s = do
  h ← set_expire timer (now + 3 * timeslot) s.timer_lst.heap
  l ← adjust_timer fuel (some timer) (record s.timer_lst { heap = h })
  done (record s { timer_lst = l })

-- A new client `connfd`, whose timer `new` puts at `timer`.
unfoldable pub add_client : (fuel now connfd timer : ℕ) → Server → Run Server
unfolding update
add_client fuel now connfd timer s =
    let w = init_client (pos connfd) s.m_user_count (s.users connfd) in
    let t : UtilTimer = record {
      expire = now + 3 * timeslot;
      user_data = connfd;
      prev = none;
      next = none;
    } in
    let l = record s.timer_lst { heap = Timer.put s.timer_lst.heap timer (some t) } in
    if ltb connfd max_fd
    then (add_timer fuel (some timer) l >>= λ l'. done (record s {
      timer_lst = l';
      users_timer =
          update connfd (some (record { sockfd = connfd; timer = some timer })) s.users_timer;
      users = update connfd w.conn s.users;
      sent = update connfd [] s.sent;
      m_user_count = w.user_count;
      calls = s.calls ++ map socket w.calls;
    }))
    else fault

-- What accept() and `new` return.
unfoldable pub accept_client : (fuel now : ℕ) → (connfd : ℤ) → (timer : ℕ) → Server → Run Server
unfolding add_client
accept_client fuel now connfd timer s =
    if leb_ℤ (pos max_fd) s.m_user_count
    then done (record s { calls = s.calls ++ close connfd ∷ [] })
    else elim connfd [ pos fd ↦ add_client fuel now fd timer s | negsuc n ↦ fault ]

-- The bytes that recv() finds in the pipe: `none` is an error. The first result is whether main() goes
-- on.
unfoldable pub scan_signals : List ℕ → Server → Bool × Server
scan_signals [] s = (true, s)
scan_signals (signal ∷ rest) s = elim (signal == 14) [
  | true ↦ scan_signals rest (record s { timeout = true })
  | false ↦ if signal == 15 then (false, s) else scan_signals rest s
]

unfoldable pub take_signals : Option (List ℕ) → Server → Bool × Server
unfolding scan_signals
take_signals none s = (true, s)
take_signals (some signals) s = scan_signals signals s

-- EPOLLIN of a client
unfoldable pub read_client : (fuel now fd : ℕ) → List Recv → Server → Run Server
unfolding drop_client put_off update
read_client fuel now fd results s = do
  d ← client fd s
  elim (read results (s.users fd)) [
    | none ↦ out_of_fuel
    | some r ↦ elim r.0 [
      | true ↦ put_off fuel now d.timer (record s {
        users = update fd r.1 s.users;
        pool = (ThreadPool.append (some fd) s.pool).1;
      })
      | false ↦ drop_client d (record s { users = update fd r.1 s.users })
    ]
  ]

abbrev pub send_call : ℕ → Send.Call → Call
send_call fd call = elim call [
  | Send.modfd_in ↦ socket (SocketCall.modfd_in (pos fd))
  | Send.modfd_out ↦ socket (SocketCall.modfd_out (pos fd))
  | Send.munmap ↦ unmapped
]

abbrev pub with_output : ℕ → Conn → Bytes → List Send.Call → Server → Server
with_output fd c sent calls s = record s {
  users = update fd c s.users;
  sent = update fd sent s.sent;
  calls = s.calls ++ map (send_call fd) calls;
}

-- EPOLLOUT of a client
unfoldable pub write_client : (fuel now fd : ℕ) → List Writev → Server → Run Server
unfolding drop_client put_off update
write_client fuel now fd results s = do
  d ← client fd s
  elim (write results (s.users fd) (s.sent fd)) [
    | Send.returned ok c sent calls ↦ elim ok [
      | true ↦ put_off fuel now d.timer (with_output fd c sent calls s)
      | false ↦ drop_client d (with_output fd c sent calls s)
    ]
    | Send.fault ↦ fault
    | Send.no_answer ↦ out_of_fuel
  ]

-- EPOLLHUP, EPOLLERR or EPOLLRDHUP of a client
unfoldable pub hang_up : (fd : ℕ) → Server → Run Server
unfolding drop_client
hang_up fd s = client fd s >>= λ d. drop_client d s
