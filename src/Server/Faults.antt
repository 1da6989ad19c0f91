-- ===== src/Server/Faults.antt =====
-- main.cpp: the loop over the events of a round, and the events that fault.
use my_web_server_cmake.Prelude.{
  ℕ, ◌+◌, ◌≡◌, ◌≤◌, refl, arith, Bool, true, false, List, [], ◌∷◌, length, inl, inr, ◌⊎◌, some,
  ◌==◌, pos, leb_ℤ,
}
use my_web_server_cmake.Prelude.Run.{done, fault, ◌>>=◌}
use my_web_server_cmake.Timer.Chain.{Entry}
use my_web_server_cmake.Http.Send
use my_web_server_cmake.Http.Send.{write}
use my_web_server_cmake.Server.{Server, max_fd}
use my_web_server_cmake.Server.Dispatch.{Event, handle_event, handle_events}
use my_web_server_cmake.Server.InOrder.{InOrder}
use my_web_server_cmake.Server.Effects.{
  Happens, IsOutside, too_many, accepted, not_accepted, hung_up, signalled, readable, writable,
  write_faults, unasked, Effect, effect, HasEffect, Handled,
}
use my_web_server_cmake.Server.Handle.{same-InOrder}
use my_web_server_cmake.Server.Rounds.{handle_event-InOrder, length-effect}
use my_web_server_cmake.Server.Sizes.{InOrderAfter}

module _ (listenfd pipefd fuel : ℕ) where
  -- What can happen one after the other, from the time `now` until another.
  abbrev pub Happen : (now until : ℕ) → List Event → Server → Type 0
  Happen now until [] s = now ≤ until
  Happen now until (e ∷ rest) s =
      (now ≤ e.now)
      × Happens listenfd pipefd s e
      × ((s' : Server)
          → handle_event listenfd pipefd fuel e s ≡ done (true, s')
          → Happen e.now until rest s')
      × (e.now ≤ until)

  -- An event of the list, after those in front of it have been handled, for which accept() gives no
  -- socket below MAX_FD while there are not too many users, or for which write() faults.
  pub data FaultIn : List Event → Server → Type 0 where
    bad_socket :
        {e : Event} {rest : List Event} {s : Server}
        → (e.fd == listenfd) ≡ true
        → leb_ℤ (pos max_fd) s.m_user_count ≡ false
        → IsOutside e.connfd
        → FaultIn (e ∷ rest) s
    bad_write :
        {e : Event} {rest : List Event} {s : Server}
        → (e.fd == listenfd) ≡ false
        → e.epollhup ≡ false
        → e.epollin ≡ false
        → e.epollout ≡ true
        → write e.writevs (s.users e.fd) (s.sent e.fd) ≡ Send.fault
        → FaultIn (e ∷ rest) s
    after :
        {e : Event} {rest : List Event} {s s' : Server}
        → handle_event listenfd pipefd fuel e s ≡ done (true, s')
        → FaultIn rest s'
        → FaultIn (e ∷ rest) s

  -- An event ends in order, with at most one timer more, or it is one of those.
  abbrev EventCases : Event → List Event → Server → List Entry → Type 0
  EventCases e rest s es =
      ((x : Effect) × Handled e.now x (handle_event listenfd pipefd fuel e s)
        × (length x.timers ≤ length es + 1))
      ⊎ ((handle_event listenfd pipefd fuel e s ≡ fault) × FaultIn (e ∷ rest) s)

  event_cases :
      (now : ℕ) (e : Event) (rest : List Event) (s : Server) (es : List Entry)
      → InOrder now s es
      → now ≤ e.now
      → length es ≤ fuel
      → Happens listenfd pipefd s e
      → EventCases e rest s es
  event_cases now e rest s es i le enough h =
      go h (handle_event-InOrder listenfd pipefd fuel now e s es i le enough h)
        (length-effect listenfd pipefd fuel now e s es i le enough h)
    where
      go :
          (h : Happens listenfd pipefd s e)
          → HasEffect e.now
              (effect listenfd pipefd s e es h)
              (handle_event listenfd pipefd fuel e s)
          → ((x : Effect)
              → effect listenfd pipefd s e es h ≡ some x
              → length x.timers ≤ length es + 1)
          → EventCases e rest s es
      go (too_many _ _) d small = inl (_, d, small _ refl)
      go (accepted fd _ _ _ _ _) d small = inl (_, d, small _ refl)
      go (not_accepted at free_place out) d small = inr (d, bad_socket at free_place out)
      go (hung_up _ _ c) d small = inl (_, d, small _ refl)
      go (signalled _ _ _) d small = inl (_, d, small _ refl)
      go (readable (true, r) _ _ _ _ c _) d small = inl (_, d, small _ refl)
      go (readable (false, r) _ _ _ _ c _) d small = inl (_, d, small _ refl)
      go (writable true r sent calls _ _ _ _ _ c _) d small = inl (_, d, small _ refl)
      go (writable false r sent calls _ _ _ _ _ c _) d small = inl (_, d, small _ refl)
      go (write_faults at hup _ is_in is_out _ eq) d small =
          inr (d, bad_write at hup is_in is_out eq)
      go (unasked _ _ _ _ _) d small = inl (_, d, small _ refl)

  -- The events of a round.
  pub handle_events-InOrder :
      (now until : ℕ) (events : List Event) (s : Server) (es : List Entry)
      → InOrder now s es
      → Happen now until events s
      → length es + length events ≤ fuel
      → InOrderAfter until (length es + length events) (handle_events listenfd pipefd fuel events s)
        ⊎ ((handle_events listenfd pipefd fuel events s ≡ fault) × FaultIn events s)
  unfolding handle_events
  handle_events-InOrder now until [] s es i h enough =
      inl (true, s, es, refl, same-InOrder now until s s es h refl refl i, omega arith)
  handle_events-InOrder now until (e ∷ rest) s es i h enough =
      let rest_of =
        λ (s1 : Server) (es1 : List Entry). handle_events-InOrder e.now until rest s1 es1 in
      elim (event_cases now e rest s es i h.0 (omega (arith, enough)) h.1) [
        | inl (x, one, small) ↦
            next rest_of x.goes_on one.server x.timers one.ends one.in_order small
        | inr (eq, f) ↦ inr (rw (handle_events, eq, ◌>>=◌) refl, f)
      ]
    where
      next :
          ((s1 : Server) (es1 : List Entry)
            → InOrder e.now s1 es1
            → Happen e.now until rest s1
            → length es1 + length rest ≤ fuel
            → InOrderAfter until
                (length es1 + length rest)
                (handle_events listenfd pipefd fuel rest s1)
              ⊎ ((handle_events listenfd pipefd fuel rest s1 ≡ fault) × FaultIn rest s1))
          → (goes_on : Bool) (s1 : Server) (es1 : List Entry)
          → handle_event listenfd pipefd fuel e s ≡ done (goes_on, s1)
          → InOrder e.now s1 es1
          → length es1 ≤ length es + 1
          → InOrderAfter until
              (length es + length (e ∷ rest))
              (handle_events listenfd pipefd fuel (e ∷ rest) s)
            ⊎ ((handle_events listenfd pipefd fuel (e ∷ rest) s ≡ fault) × FaultIn (e ∷ rest) s)
      next rest_of true s1 es1 eq j small =
          elim (rest_of s1 es1 j (h.2 s1 eq) (omega (arith, enough, small))) [
            | inl (g, s2, es2, eq2, k, bound) ↦
                inl (g, s2, es2, rw (handle_events, eq, ◌>>=◌) eq2, k, omega (arith, bound, small))
            | inr (eq2, f) ↦ inr (rw (handle_events, eq, ◌>>=◌) eq2, after eq f)
          ]
      next rest_of false s1 es1 eq j small = inl (
        false,
        s1,
        es1,
        rw (handle_events, eq, ◌>>=◌) refl,
        same-InOrder e.now until s1 s1 es1 h.3 refl refl j,
        omega (arith, small),
      )
