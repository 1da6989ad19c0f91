-- ===== src/Server/Reused.antt =====
-- main.cpp: a socket that was closed behind the back of the list of timers, and is accepted again.
use my_web_server_cmake.Prelude.{
  ℕ, ◌+◌, ◌≡◌, ◌≤◌, ◌<◌, refl, arith, Bool, true, false, ◌||◌, none, List, [], ◌∷◌, ◌++◌, ap, sym,
  subst, length, length-append, Bool-cases, inl, inr, ltb, lt→ltb, ltb_of_le, ◌==◌, ==_iff, pos,
  leb_ℤ, append_assoc,
}
use my_web_server_cmake.Prelude.Run.{done}
use my_web_server_cmake.Timer.{SortTimerLst}
use my_web_server_cmake.Timer.Chain.{Entry}
use my_web_server_cmake.Server.{Server, max_fd, accept_client}
use my_web_server_cmake.Server.Dispatch.{handle_timeout}
use my_web_server_cmake.Server.Expired.{alive, expired}
use my_web_server_cmake.Server.InOrder.{InOrder}
use my_web_server_cmake.Server.Accept.{with_client, accept_client-InOrder}
use my_web_server_cmake.Server.Events.{timed_out, handle_timeout-InOrder}

abbrev pub elem : ℕ → List ℕ → Bool
elem x [] = false
elem x (y ∷ ys) = (x == y) || elem x ys

-- The owner of a timer that has expired is among those who are called back.
expired-elem :
    (now : ℕ) (before after : List Entry) (t : Entry)
    → t.expire ≤ now
    → elem t.user_data (expired now (before ++ t ∷ after)) ≡ true
expired-elem now [] after t le =
    let same = (==_iff t.user_data t.user_data).1 refl in
    rw (ltb_of_le now t.expire le) (ap (λ b. b || elem t.user_data (expired now after)) same)
expired-elem now (e ∷ es) after t le = elim (Bool-cases (ltb now e.expire)) [
  | inl lt ↦ rw lt (expired-elem now es after t le)
  | inr ge ↦ rw ge (ground (arith, expired-elem now es after t le))
]

alive-last :
    (now : ℕ) (es : List Entry) (t : Entry)
    → now < t.expire
    → alive now (es ++ t ∷ []) ≡ alive now es ++ t ∷ []
alive-last now [] t lt = rw (lt→ltb now t.expire lt) refl
alive-last now (e ∷ es) t lt = elim (Bool-cases (ltb now e.expire)) [
  | inl l ↦ rw l (ap (λ zs. e ∷ zs) (alive-last now es t lt))
  | inr g ↦ rw g (alive-last now es t lt)
]

-- A new client is closed by an old timer. A server is in order at `now`, and its list still has a timer
-- of the socket `fd`; then accept() returns `fd` again, as it can once a worker has closed it. At a
-- timeout when the old timer has expired, and the three slots of the new client have not, the end of the
-- round closes `fd`, with the new client on it, whose own timer stays in the list.
pub accept_client-reused :
    (fuel now later end fd timer : ℕ) (s : Server) (before after : List Entry) (old : Entry)
    → InOrder now s (before ++ old ∷ after)
    → old.user_data ≡ fd
    → now ≤ later
    → later ≤ end
    → old.expire ≤ end
    → end < later + 15
    → s.timeout ≡ true
    → leb_ℤ (pos max_fd) s.m_user_count ≡ false
    → ltb fd max_fd ≡ true
    → s.timer_lst.heap timer ≡ none
    → length (before ++ old ∷ after) + 1 < fuel
    → (m k : SortTimerLst) × (owners : List ℕ) × (accept_client fuel later (pos fd) timer s
        ≡ done (with_client fd timer m s))
      × (handle_timeout fuel end (with_client fd timer m s)
          ≡ done (timed_out owners k (with_client fd timer m s)))
      × (elem fd owners ≡ true)
      × InOrder end (timed_out owners k (with_client fd timer m s)) (
          alive end (before ++ old ∷ after)
          ++ record { ptr = timer; expire = later + 15; user_data = fd } ∷ [])
accept_client-reused fuel now later end fd timer s before after old i owner le1 le2 over early set
      count in_range free enough =
    let es = before ++ old ∷ after in
    let t : Entry = record { ptr = timer; expire = later + 15; user_data = fd } in
    let (m, e, j) =
      accept_client-InOrder fuel now later fd timer s es i le1 count in_range free
        (omega (arith, enough)) in
    let (k, f, o) =
      handle_timeout-InOrder fuel later end (with_client fd timer m s) (es ++ t ∷ []) j le2 set
        (omega (arith, enough, length-append es (t ∷ []))) in
    let shape : es ++ t ∷ [] ≡ before ++ old ∷ (after ++ t ∷ []) =
      append_assoc before (old ∷ after) (t ∷ []) in
    (
      m,
      k,
      expired end (es ++ t ∷ []),
      e,
      f,
      subst (λ zs. elem fd (expired end zs) ≡ true) (sym shape)
          (subst (λ x. elem x (expired end (before ++ old ∷ (after ++ t ∷ []))) ≡ true) owner
            (expired-elem end before (after ++ t ∷ []) old over)),
      subst
          (λ zs.
            InOrder end (timed_out (expired end (es ++ t ∷ [])) k (with_client fd timer m s)) zs)
          (alive-last end es t early) o,
    )
