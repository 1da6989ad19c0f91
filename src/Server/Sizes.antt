-- ===== src/Server/Sizes.antt =====
-- main.cpp: how many timers and events there are, and when.
use my_web_server_cmake.Prelude.{
  ℕ, ◌+◌, ◌≡◌, ◌≤◌, arith, Bool, false, List, [], ◌∷◌, ap, length, Bool-cases, inl, inr,
  if◌then◌else◌, ltb,
}
use my_web_server_cmake.Prelude.Run.{Run, done, ◌>>=◌}
use my_web_server_cmake.Timer.Chain.{Entry}
use my_web_server_cmake.Server.{Server}
use my_web_server_cmake.Server.Dispatch.{
  Wait, ready, interrupted, epoll_failed, handle_timeout, timer_handler,
}
use my_web_server_cmake.Server.Expired.{alive}
use my_web_server_cmake.Server.InOrder.{InOrder}

-- A run that ends, with a server in order, and at most `n` timers.
abbrev pub InOrderAfter : (now n : ℕ) → Run (Bool × Server) → Type 0
InOrderAfter now n r =
    (goes_on : Bool) × (s : Server) × (es : List Entry) × (r ≡ done (goes_on, s))
    × InOrder now s es
    × (length es ≤ n)

pub length-alive : (now : ℕ) (es : List Entry) → length (alive now es) ≤ length es
length-alive now [] = omega arith
length-alive now (e ∷ es) = elim (Bool-cases (ltb now e.expire)) [
  | inl lt ↦ rw lt (omega (arith, length-alive now es))
  | inr ge ↦ rw ge (omega (arith, length-alive now es))
]

pub no_timeout :
    (fuel later : ℕ) (s : Server) → s.timeout ≡ false → handle_timeout fuel later s ≡ done s
unfolding handle_timeout
no_timeout fuel later s unset =
    ap
      (λ b.
        if b
        then (timer_handler fuel later s >>= λ s'. done (record s' { timeout = false }))
        else done s)
      unset

abbrev pub event_count : Wait → ℕ
event_count (ready events now) = length events
event_count (interrupted now) = 0
event_count epoll_failed = 0

abbrev pub wait_time : ℕ → Wait → ℕ
wait_time now (ready events later) = later
wait_time now (interrupted later) = later
wait_time now epoll_failed = now

abbrev pub total : List Wait → ℕ
total [] = 0
total (w ∷ rest) = event_count w + total rest
