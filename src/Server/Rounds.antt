-- ===== src/Server/Rounds.antt =====
-- main.cpp: the signals, and the choice of the handler for an event.
use my_web_server_cmake.Prelude.{
  ℕ, ◌+◌, ◌≡◌, ◌≤◌, refl, arith, Bool, true, false, Option, none, some, List, [], ◌∷◌, ◌++◌, ap,
  ◌∙◌, suc, not, ◌||◌, ℤ, pos, negsuc, leb_ℤ, length-append, sym, subst, length, ◌==◌, Bool-cases,
  inl, inr,
}
use my_web_server_cmake.Prelude.Run.{done, fault, ◌>>=◌}
use my_web_server_cmake.Timer.Chain.{Entry}
use my_web_server_cmake.Timer.Unique.{Holds-unique}
use my_web_server_cmake.Server.{
  Server, max_fd, close, accept_client, add_client, scan_signals, take_signals,
}
use my_web_server_cmake.Http.Worker.{init_client}
use my_web_server_cmake.Server.Dispatch.{Event, handle_event, go_on}
use my_web_server_cmake.Server.InOrder.{InOrder, retimed}
use my_web_server_cmake.Server.Accept.{accept_client-InOrder, with_client}
use my_web_server_cmake.Server.Effects.{
  IsClient, IsOutside, Happens, too_many, accepted, not_accepted, hung_up, signalled, readable,
  writable, write_faults, unasked, among, until_sigterm, signals_of, Effect, effect, HasEffect,
}
use my_web_server_cmake.Server.Handle.{
  same-InOrder, hang_up-Handled, read_client-Handled, write_client-Handled, write_client-fault,
}

or_first : (b c d : Bool) → c ≡ true → true ≡ b || (c || d)
or_first b c d e = ground (arith, e)

or_false : (b : Bool) → b || false ≡ b
or_false b = ground arith

-- The signals, up to the first SIGTERM.
scan_signals-all :
    (signals : List ℕ) (s : Server)
    → scan_signals signals s ≡ (
      not (among 15 signals),
      record s { timeout = s.timeout || among 14 (until_sigterm signals) },
    )
unfolding scan_signals
scan_signals-all [] s = ap (λ b. (true, record s { timeout = b })) (sym (or_false s.timeout))
scan_signals-all (x ∷ xs) s = elim (Bool-cases (x == 14)) [
  | inl a ↦
      let other : (x == 15) ≡ false = ground (arith, a) in
      rw (scan_signals, a, other)
        (scan_signals-all xs (record s { timeout = true })
          ∙ ap (λ b. (not (among 15 xs), record s { timeout = b }))
              (or_first s.timeout (x == 14) _ a))
  | inr b ↦ elim (Bool-cases (x == 15)) [
    | inl c ↦
        rw (scan_signals, b, c)
          (ap (λ b. (false, record s { timeout = b })) (sym (or_false s.timeout)))
    | inr d ↦ rw (scan_signals, b, d) (rw b (scan_signals-all xs s))
  ]
]

module _ (listenfd pipefd fuel now : ℕ) (e : Event) (s : Server) (es : List Entry)
    (i : InOrder now s es) (le : now ≤ e.now) (enough : length es ≤ fuel) where
  later : InOrder e.now s es
  later = same-InOrder now e.now s s es le refl refl i

  -- With the timers that the event's client has in the list.
  place : (c : IsClient s e.fd) → es ≡ c.before ++ c.timer ∷ c.after
  place c = Holds-unique s.timer_lst es (c.before ++ c.timer ∷ c.after) i.holds c.holds

  there : (c : IsClient s e.fd) → InOrder now s (c.before ++ c.timer ∷ c.after)
  there c = subst (λ zs. InOrder now s zs) (place c) i

  fits : (c : IsClient s e.fd) → length (c.before ++ c.timer ∷ c.after) ≤ fuel
  fits c = subst (λ zs. length zs ≤ fuel) (place c) enough

  signals :
      (found : Option (List ℕ))
      → let xs = signals_of found in
        take_signals found s
        ≡ (not (among 15 xs), record s { timeout = s.timeout || among 14 (until_sigterm xs) })
  unfolding take_signals
  signals none = ap (λ b. (true, record s { timeout = b })) (sym (or_false s.timeout))
  signals (some xs) = scan_signals-all xs s

  outside :
      (connfd : ℤ)
      → leb_ℤ (pos max_fd) s.m_user_count ≡ false
      → IsOutside connfd
      → accept_client fuel e.now connfd e.timer s ≡ fault
  unfolding accept_client add_client
  outside (pos fd) free_place out = rw (accept_client, free_place, add_client, out) refl
  outside (negsuc n) free_place out = rw (accept_client, free_place) refl

  -- Every event does what its kind asks for. Let a server be in order at `now`, and an event come, at a
  -- time that is not before, with what the system calls can return, and as many rounds of the list be
  -- given as there are timers. Then handle_event ends with the server in order at that time, and with
  -- what `effect` says of the timers, the calls, the count of users, the pool, the timeout and whether
  -- main() goes on. A new client is added with its timer last, or its socket is closed if there are too
  -- many; on EPOLLHUP, on a read() and on a write() that returns false, the event's client is closed and
  -- counted off, and its own timer is gone; on a read() or a write() that returns true its own timer is
  -- put off to the end, and a read() hands it to the pool; the signals set the timeout or end main(),
  -- and an event that asks for none of these does nothing. Just an accept() that gives no socket below
  -- MAX_FD, while there are not too many users, and a write() that faults lead to a fault.
  pub handle_event-InOrder :
      (h : Happens listenfd pipefd s e)
      → HasEffect e.now (effect listenfd pipefd s e es h) (handle_event listenfd pipefd fuel e s)
  unfolding handle_event accept_client init_client
  handle_event-InOrder (too_many at full) =
      let s1 = record s { calls = s.calls ++ close e.connfd ∷ [] } in
      record {
        server = s1;
        ends = rw (handle_event, at, accept_client, full, ◌>>=◌) refl;
        in_order = same-InOrder e.now e.now s s1 es (omega arith) refl refl later;
        calls = refl;
        m_user_count = refl;
        pool = refl;
        timeout = refl;
      }
  handle_event-InOrder (accepted fd at free_place connfd in_range free) =
      let (m, eq, j) =
        accept_client-InOrder fuel now e.now fd e.timer s es i le free_place in_range free enough in
      record {
        server = with_client fd e.timer m s;
        ends = rw (handle_event, at, connfd) (ap go_on eq);
        in_order = j;
        calls = refl;
        m_user_count = refl;
        pool = refl;
        timeout = refl;
      }
  handle_event-InOrder (not_accepted at free_place out) =
      rw (handle_event, at) (ap go_on (outside e.connfd free_place out))
  handle_event-InOrder (hung_up at hup c) =
      rw (handle_event, at, hup)
        (hang_up-Handled now e.now fuel e.fd c.timer c.before c.after s le (fits c) c.in_range
          c.data_is (there c))
  handle_event-InOrder (signalled at hup pipe) =
      let xs = signals_of e.signals in
      let s1 = record s { timeout = s.timeout || among 14 (until_sigterm xs) } in
      record {
        server = s1;
        ends = rw (handle_event, at, hup, pipe) (ap done (signals e.signals));
        in_order = same-InOrder e.now e.now s s1 es (omega arith) refl refl later;
        calls = refl;
        m_user_count = refl;
        pool = refl;
        timeout = refl;
      }
  handle_event-InOrder (readable (true, d) at hup pipe is_in c eq) =
      rw (handle_event, at, hup, pipe, is_in)
        (read_client-Handled now e.now fuel e.fd c.timer c.before c.after s le (fits c) c.in_range
          c.data_is (there c) e.recvs true d eq)
  handle_event-InOrder (readable (false, d) at hup pipe is_in c eq) =
      rw (handle_event, at, hup, pipe, is_in)
        (read_client-Handled now e.now fuel e.fd c.timer c.before c.after s le (fits c) c.in_range
          c.data_is (there c) e.recvs false d eq)
  handle_event-InOrder (writable true d sent calls at hup pipe is_in is_out c eq) =
      rw (handle_event, at, hup, pipe, is_in, is_out)
        (write_client-Handled now e.now fuel e.fd c.timer c.before c.after s le (fits c) c.in_range
          c.data_is (there c) e.writevs true d sent calls eq)
  handle_event-InOrder (writable false d sent calls at hup pipe is_in is_out c eq) =
      rw (handle_event, at, hup, pipe, is_in, is_out)
        (write_client-Handled now e.now fuel e.fd c.timer c.before c.after s le (fits c) c.in_range
          c.data_is (there c) e.writevs false d sent calls eq)
  handle_event-InOrder (write_faults at hup pipe is_in is_out c eq) =
      rw (handle_event, at, hup, pipe, is_in, is_out)
        (ap go_on (
          write_client-fault now e.now fuel e.fd c.timer c.before c.after s le (fits c) c.in_range
            c.data_is (there c) e.writevs eq))
  handle_event-InOrder (unasked at hup pipe is_in is_out) = record {
    server = s;
    ends = rw (handle_event, at, hup, pipe, is_in, is_out) refl;
    in_order = later;
    calls = refl;
    m_user_count = refl;
    pool = refl;
    timeout = refl;
  }

  count_of : (c : IsClient s e.fd) → length es ≡ length c.before + suc (length c.after)
  count_of c = ap length (place c) ∙ length-append c.before (c.timer ∷ c.after)

  length-dropped : (c : IsClient s e.fd) → length (c.before ++ c.after) ≤ length es + 1
  length-dropped c = omega (arith, count_of c, length-append c.before c.after)

  length-put_off :
      (c : IsClient s e.fd)
      → length ((c.before ++ c.after) ++ retimed (e.now + 15) c.timer ∷ []) ≤ length es + 1
  length-put_off c = omega (
    arith,
    count_of c,
    length-append c.before c.after,
    length-append (c.before ++ c.after) (retimed (e.now + 15) c.timer ∷ []),
  )

  -- There is at most one timer more.
  pub length-effect :
      (h : Happens listenfd pipefd s e) (x : Effect)
      → effect listenfd pipefd s e es h ≡ some x
      → length x.timers ≤ length es + 1
  length-effect h x eq = go h (ap (λ o. elim o [ none ↦ 0 | some y ↦ length y.timers ]) eq)
    where
      go :
          (h : Happens listenfd pipefd s e)
          → (elim (effect listenfd pipefd s e es h) [ none ↦ 0 | some y ↦ length y.timers ])
            ≡ length x.timers
          → length x.timers ≤ length es + 1
      go (too_many _ _) n = omega arith
      go (accepted fd _ _ _ _ _) n = omega (
        arith,
        n,
        length-append es (record { ptr = e.timer; expire = e.now + 15; user_data = fd } ∷ []),
      )
      go (not_accepted _ _ _) n = omega arith
      go (hung_up _ _ c) n = omega (arith, n, length-dropped c)
      go (signalled _ _ _) n = omega arith
      go (readable (true, d) _ _ _ _ c _) n = omega (arith, n, length-put_off c)
      go (readable (false, d) _ _ _ _ c _) n = omega (arith, n, length-dropped c)
      go (writable true d sent calls _ _ _ _ _ c _) n = omega (arith, n, length-put_off c)
      go (writable false d sent calls _ _ _ _ _ c _) n = omega (arith, n, length-dropped c)
      go (write_faults _ _ _ _ _ _ _) n = omega arith
      go (unasked _ _ _ _ _) n = omega arith
