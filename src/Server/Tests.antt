-- ===== src/Server/Tests.antt =====
-- main.cpp with a client that is accepted, is idle, and is closed.
use my_web_server_cmake.Prelude.{
  ℕ, ◌≡◌, refl, arith, true, false, none, some, List, [], ◌∷◌, ◌==◌, if◌then◌else◌, pos,
}
use my_web_server_cmake.Prelude.Run.{done}
use my_web_server_cmake.Timer.{Heap, SortTimerLst}
use my_web_server_cmake.Timer.Chain.{Entry, node}
use my_web_server_cmake.Timer.Holds.{Holds}
use my_web_server_cmake.Http.Samples.{idle}
use my_web_server_cmake.Server.{Server, epoll_del, close, accept_client}
use my_web_server_cmake.Server.Dispatch.{
  Event, Wait, ready, interrupted, handle_timeout, handle_event,
}
use my_web_server_cmake.Server.InOrder.{InOrder, data_of}
use my_web_server_cmake.Server.Events.{timed_out, handle_timeout-InOrder}
use my_web_server_cmake.Server.Effects.{IsClient, Handled, hung_up}
use my_web_server_cmake.Server.Rounds.{handle_event-InOrder}
use my_web_server_cmake.Server.Accept.{with_client}
use my_web_server_cmake.Server.Reused.{elem, accept_client-reused}

abbrev timer_of_7 : Entry
timer_of_7 = record { ptr = 1; expire = 115; user_data = 7 }

abbrev one_timer : Heap
one_timer p = if p == 1 then some (node none none timer_of_7) else none

-- Client 7 was active at 100.
abbrev running : Server
running = record {
  timer_lst = record { heap = one_timer; head = some 1; tail = some 1 };
  users_timer = λ fd. if fd == 7 then some (data_of 7 (some 1)) else none;
  users = λ fd. idle;
  sent = λ fd. [];
  m_user_count = pos 1;
  pool = record {
    m_workqueue = [];
    m_queuesem = 0;
    m_max_request = 3;
    m_threadnumber = 1;
    m_shotdown = false;
  };
  timeout = false;
  calls = [];
}

running-Holds : Holds running.timer_lst (timer_of_7 ∷ [])
running-Holds = record { chain = (refl, tt); distinct = (refl, tt); head = refl; tail = refl }

running-InOrder : InOrder 100 running (timer_of_7 ∷ [])
running-InOrder = record {
  holds = running-Holds;
  sorted = (tt, tt);
  by = (omega arith, tt);
  owned = (refl, (some 1, refl), tt);
}

abbrev alarmed : Server
alarmed = record running { timeout = true }

alarmed-InOrder : InOrder 100 alarmed (timer_of_7 ∷ [])
alarmed-InOrder = record {
  holds = running-Holds;
  sorted = (tt, tt);
  by = (omega arith, tt);
  owned = (refl, (some 1, refl), tt);
}

handle_timeout-InOrder_example :
    (m : SortTimerLst) × (handle_timeout 2 115 alarmed ≡ done (timed_out (7 ∷ []) m alarmed))
    × InOrder 115 (timed_out (7 ∷ []) m alarmed) []
handle_timeout-InOrder_example =
    handle_timeout-InOrder 2 100 115 alarmed (timer_of_7 ∷ []) alarmed-InOrder (omega arith) refl
      (omega arith)

-- The listening socket is 3, the pipe is 4.
abbrev hang_up_of_7 : Event
hang_up_of_7 = record {
  fd = 7;
  epollhup = true;
  epollin = false;
  epollout = false;
  now = 105;
  connfd = pos 0;
  timer = 0;
  signals = none;
  recvs = [];
  writevs = [];
}

abbrev client_7 : IsClient running 7
client_7 = record {
  before = [];
  timer = timer_of_7;
  after = [];
  holds = running-Holds;
  in_range = refl;
  data_is = refl;
}

handle_event-InOrder_example :
    Handled 105
      (record {
        goes_on = true;
        timers = [];
        calls = epoll_del 0 7 ∷ close (pos 7) ∷ [];
        m_user_count = pos 0;
        pool = running.pool;
        timeout = false;
      })
      (handle_event 3 4 1 hang_up_of_7 running)
handle_event-InOrder_example =
    handle_event-InOrder 3 4 1 100 hang_up_of_7 running (timer_of_7 ∷ []) running-InOrder
      (omega arith) (omega arith) (hung_up refl refl client_7)

abbrev arrival : Event
arrival = record hang_up_of_7 {
  fd = 3;
  connfd = pos 8;
  timer = 2;
  epollhup = false;
  epollin = true;
}

abbrev alarm_signal : Event
alarm_signal = record hang_up_of_7 {
  fd = 4;
  now = 118;
  signals = some (14 ∷ []);
  epollhup = false;
  epollin = true;
}

abbrev three_rounds : List Wait
three_rounds = ready (arrival ∷ []) 105 ∷ interrupted 110 ∷ ready (alarm_signal ∷ []) 118 ∷ []

-- Socket 7 is accepted again at 110.
accept_client-reused_example :
    (m k : SortTimerLst) × (owners : List ℕ) × (accept_client 3 110 (pos 7) 2 alarmed
      ≡ done (with_client 7 2 m alarmed))
    × (handle_timeout 3 120 (with_client 7 2 m alarmed)
        ≡ done (timed_out owners k (with_client 7 2 m alarmed)))
    × (elem 7 owners ≡ true)
    × InOrder 120
        (timed_out owners k (with_client 7 2 m alarmed))
        (record { ptr = 2; expire = 125; user_data = 7 } ∷ [])
accept_client-reused_example =
    accept_client-reused 3 100 110 120 7 2 alarmed [] [] timer_of_7 alarmed-InOrder refl
      (omega arith) (omega arith) (omega arith) (omega arith) refl refl refl refl (omega arith)
