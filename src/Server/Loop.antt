-- ===== src/Server/Loop.antt =====
-- main.cpp: `while (true)`.
use my_web_server_cmake.Prelude.{ℕ, ◌≡◌, ◌≤◌, true, List, [], ◌∷◌}
use my_web_server_cmake.Prelude.Run.{done}
use my_web_server_cmake.Server.{Server}
use my_web_server_cmake.Server.Dispatch.{Event, Wait, ready, interrupted, epoll_failed, round}
use my_web_server_cmake.Server.InOrder.{InOrder}
use my_web_server_cmake.Server.Sizes.{wait_time}
use my_web_server_cmake.Server.Faults.{Happen, FaultIn}

module _ (listenfd pipefd fuel : ℕ) where
  abbrev pub HappenIn : (now : ℕ) → Wait → Server → Type 0
  HappenIn now (ready events later) s = Happen listenfd pipefd fuel now later events s
  HappenIn now (interrupted later) s = now ≤ later
  HappenIn now epoll_failed s = Unit {0}

  -- Round after round.
  abbrev pub HappenAll : (now : ℕ) → List Wait → Server → Type 0
  HappenAll now [] s = Unit {0}
  HappenAll now (w ∷ rest) s =
      HappenIn now w s
      × ((s' : Server)
          → round listenfd pipefd fuel w s ≡ done (true, s')
          → HappenAll (wait_time now w) rest s')

  -- Such an event in one of the rounds.
  pub data FaultAmong : List Wait → Server → Type 0 where
    this_round :
        {events : List Event} {later : ℕ} {rest : List Wait} {s : Server}
        → FaultIn listenfd pipefd fuel events s
        → FaultAmong (ready events later ∷ rest) s
    next_round :
        {w : Wait} {rest : List Wait} {s s' : Server}
        → round listenfd pipefd fuel w s ≡ done (true, s')
        → FaultAmong rest s'
        → FaultAmong (w ∷ rest) s
