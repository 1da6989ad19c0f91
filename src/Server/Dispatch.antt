-- ===== src/Server/Dispatch.antt =====
-- main.cpp: the choice among the handlers for each event of epoll, and the main loop.
use my_web_server_cmake.Prelude.{
  ℕ, Bool, true, false, Option, List, [], ◌∷◌, ◌++◌, ◌==◌, ◌&&◌, if◌then◌else◌, ℤ,
}
use my_web_server_cmake.Prelude.Run.{Run, done, ◌>>=◌}
use my_web_server_cmake.Timer.{tick}
use my_web_server_cmake.Http.Worker.{Recv}
use my_web_server_cmake.Http.Send.{Writev}
use my_web_server_cmake.Server.{
  Server, alarm, timeslot, client, cb_func, accept_client, take_signals, read_client, write_client,
  hang_up,
}

-- An event with what the system calls return that are made for it: `now` of time(), `connfd` of
-- accept(), `timer` of `new`, `signals` of the recv() on the pipe.
pub record Event : Type 0 where
  pub fd : ℕ
  pub epollhup : Bool
  pub epollin : Bool
  pub epollout : Bool
  pub now : ℕ
  pub connfd : ℤ
  pub timer : ℕ
  pub signals : Option (List ℕ)
  pub recvs : List Recv
  pub writevs : List Writev

abbrev pub go_on : Run Server → Run (Bool × Server)
go_on r = r >>= λ s. done (true, s)

-- The body of the loop over the events. `epollhup` is EPOLLHUP, EPOLLERR or EPOLLRDHUP.
unfoldable pub handle_event : (listenfd pipefd fuel : ℕ) → Event → Server → Run (Bool × Server)
unfolding accept_client hang_up take_signals read_client write_client
handle_event listenfd pipefd fuel e s =
    if e.fd == listenfd
    then go_on (accept_client fuel e.now e.connfd e.timer s)
    else if e.epollhup
    then go_on (hang_up e.fd s)
    else if (e.fd == pipefd) && e.epollin
    then done (take_signals e.signals s)
    else if e.epollin
    then go_on (read_client fuel e.now e.fd e.recvs s)
    else if e.epollout
    then go_on (write_client fuel e.now e.fd e.writevs s)
    else done (true, s)

-- The loop over the events, up to a `return`.
unfoldable pub handle_events :
    (listenfd pipefd fuel : ℕ) → List Event → Server → Run (Bool × Server)
handle_events listenfd pipefd fuel [] s = done (true, s)
handle_events listenfd pipefd fuel (e ∷ rest) s =
    handle_event listenfd pipefd fuel e s >>= λ (goes_on, s'). elim goes_on [
      | true ↦ handle_events listenfd pipefd fuel rest s'
      | false ↦ done (false, s')
    ]

-- The callbacks of the timers, in their order.
unfoldable pub call_back : List ℕ → Server → Run Server
unfolding cb_func
call_back [] s = done s
call_back (fd ∷ rest) s = client fd s >>= λ d. call_back rest (cb_func d s)

-- timer_handler()
unfoldable pub timer_handler : (fuel now : ℕ) → Server → Run Server
unfolding call_back
timer_handler fuel now s = do
  (l, owners) ← tick fuel now s.timer_lst
  s' ← call_back owners (record s { timer_lst = l })
  done (record s' { calls = s'.calls ++ alarm timeslot ∷ [] })

-- `if (timeout)`
unfoldable pub handle_timeout : (fuel now : ℕ) → Server → Run Server
unfolding timer_handler
handle_timeout fuel now s =
    if s.timeout
    then (timer_handler fuel now s >>= λ s'. done (record s' { timeout = false }))
    else done s

-- What epoll_wait returns, with what time() returns at the end of the round.
pub data Wait : Type 0 where
  ready : List Event → (now : ℕ) → Wait
  interrupted : (now : ℕ) → Wait
  epoll_failed : Wait

-- A round of `while (true)`. The first result is whether there is another.
unfoldable pub round : (listenfd pipefd fuel : ℕ) → Wait → Server → Run (Bool × Server)
unfolding handle_events handle_timeout
round listenfd pipefd fuel epoll_failed s = done (false, s)
round listenfd pipefd fuel (interrupted now) s = go_on (handle_timeout fuel now s)
round listenfd pipefd fuel (ready events now) s =
    handle_events listenfd pipefd fuel events s >>= λ (goes_on, s'). elim goes_on [
      | true ↦ go_on (handle_timeout fuel now s')
      | false ↦ done (false, s')
    ]

-- `while (true)`, up to its end or the end of the inputs
unfoldable pub main_loop : (listenfd pipefd fuel : ℕ) → List Wait → Server → Run (Bool × Server)
unfolding round
main_loop listenfd pipefd fuel [] s = done (true, s)
main_loop listenfd pipefd fuel (w ∷ rest) s = round listenfd pipefd fuel w s >>= λ (goes_on, s').
    elim goes_on [ true ↦ main_loop listenfd pipefd fuel rest s' | false ↦ done (false, s') ]
