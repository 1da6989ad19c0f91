-- ===== src/Server/Events.antt =====
-- main.cpp: the end of a round, with a timeout.
use my_web_server_cmake.Prelude.{
  ℕ, ◌+◌, ◌≡◌, ◌≤◌, ◌<◌, refl, arith, true, false, Option, List, [], ◌∷◌, ◌++◌, ltb, ap, ◌∙◌, sym,
  subst, length, if◌then◌else◌, ℤ, pos, ◌-ℤ◌, Bool-cases, inl, inr, append-nil, append_assoc,
}
use my_web_server_cmake.Prelude.Run.{done, ◌>>=◌}
use my_web_server_cmake.Timer.{SortTimerLst, tick}
use my_web_server_cmake.Timer.Chain.{Entry}
use my_web_server_cmake.Timer.Tick.{tick-Holds}
use my_web_server_cmake.Timer.Holds.{Holds}
use my_web_server_cmake.Server.{
  Server, ClientData, Call, epoll_del, close, alarm, timeslot, cb_func,
}
use my_web_server_cmake.Server.Dispatch.{call_back, timer_handler, handle_timeout}
use my_web_server_cmake.Server.Expired.{
  alive, expired, staying-Sorted, Sorted-alive, AllBy-alive, AllBy-later,
}
use my_web_server_cmake.Server.InOrder.{InOrder, Owned, data_of, client-some}

-- The system calls for clients that are closed, and the count without them.
abbrev pub closing : List ℕ → List Call
closing [] = []
closing (fd ∷ rest) = epoll_del 0 fd ∷ close (pos fd) ∷ closing rest

abbrev pub count_down : List ℕ → ℤ → ℤ
count_down [] n = n
count_down (fd ∷ rest) n = count_down rest (n -ℤ pos 1)

abbrev pub closed : List ℕ → Server → Server
closed owners s = record s {
  calls = s.calls ++ closing owners;
  m_user_count = count_down owners s.m_user_count;
}

Owned-alive :
    (u : ℕ → Option ClientData) (now : ℕ) (es : List Entry) → Owned u es → Owned u (alive now es)
Owned-alive u now [] o = tt
Owned-alive u now (e ∷ es) o = elim (Bool-cases (ltb now e.expire)) [
  | inl lt ↦ rw lt (o.0, o.1, Owned-alive u now es o.2)
  | inr ge ↦ rw ge (Owned-alive u now es o.2)
]

call_back-closed :
    (now : ℕ) (es : List Entry) (s : Server)
    → Owned s.users_timer es
    → call_back (expired now es) s ≡ done (closed (expired now es) s)
unfolding call_back cb_func
call_back-closed now [] s o = ap (λ cs. done (record s { calls = cs })) (sym (append-nil s.calls))
call_back-closed now (e ∷ es) s o = elim (Bool-cases (ltb now e.expire)) [
  | inl lt ↦ rw lt (call_back-closed now es s o.2)
  | inr ge ↦
      let d = data_of e.user_data o.1.0 in
      let rest = call_back-closed now es (cb_func d s) o.2 in
      let assoc =
        append_assoc s.calls (epoll_del 0 e.user_data ∷ close (pos e.user_data) ∷ [])
          (closing (expired now es)) in
      rw (ge, client-some e.user_data d s o.0 o.1.1, ◌>>=◌)
        (rest
          ∙ ap
              (λ cs. done (record s {
                calls = cs;
                m_user_count = count_down (expired now es) (s.m_user_count -ℤ pos 1);
              }))
              assoc)
]

-- What a timeout leaves: the clients `owners` are closed, and the alarm is set again.
abbrev pub timed_out : List ℕ → SortTimerLst → Server → Server
timed_out owners m s = record s {
  timer_lst = m;
  calls = (s.calls ++ closing owners) ++ alarm timeslot ∷ [];
  m_user_count = count_down owners s.m_user_count;
  timeout = false;
}

timer_handler-closed :
    (fuel later : ℕ) (s : Server) (es : List Entry) (m : SortTimerLst)
    → tick fuel later s.timer_lst ≡ done (m, expired later es)
    → Owned s.users_timer es
    → (timer_handler fuel later s >>= λ s'. done (record s' { timeout = false }))
      ≡ done (timed_out (expired later es) m s)
unfolding timer_handler
timer_handler-closed fuel later s es m ticked o =
    rw (timer_handler, ticked, ◌>>=◌, call_back-closed later es (record s { timer_lst = m }) o) refl

-- Idle clients are closed, and no others. For a server in order at `now`, whose timeout is set, the end
-- of a round at a time `later` that is not before ends, with more rounds than there are timers. It
-- closes the sockets of just the clients whose timers have expired at `later`, in the order of their
-- times, and counts each of them off; it sets the alarm again and takes the timeout back, and the server
-- is in order at `later` with just the timers that have not expired.
pub handle_timeout-InOrder :
    (fuel now later : ℕ) (s : Server) (es : List Entry)
    → InOrder now s es
    → now ≤ later
    → s.timeout ≡ true
    → length es < fuel
    → (m : SortTimerLst) × (handle_timeout fuel later s ≡ done (timed_out (expired later es) m s))
      × InOrder later (timed_out (expired later es) m s) (alive later es)
unfolding handle_timeout
handle_timeout-InOrder fuel now later s es i le set enough =
    let (m, e, v, gone, same) = tick-Holds fuel later es s.timer_lst i.holds enough in
    let (stays, calls) = staying-Sorted later es i.sorted in
    let by = AllBy-later (now + 15) (later + 15) es (omega (arith, le)) i.by in
    let ticked = e ∙ ap (λ owners. done (m, owners)) calls in
    (
      m,
      ap
            (λ b.
              if b
              then (timer_handler fuel later s >>= λ s'. done (record s' { timeout = false }))
              else done s)
            set
          ∙ timer_handler-closed fuel later s es m ticked i.owned,
      record {
        holds = subst (Holds m) stays v;
        sorted = Sorted-alive later es i.sorted;
        by = AllBy-alive (later + 15) later es by;
        owned = Owned-alive s.users_timer later es i.owned;
      },
    )
