-- ===== src/Server/Accept.antt =====
-- main.cpp: a client is accepted.
use mathlib.Core.Option.{none-ne-some}
use my_web_server_cmake.Prelude.{
  ℕ, ◌+◌, ◌≡◌, ◌≢◌, ◌≤◌, refl, arith, true, false, Option, none, some, List, [], ◌∷◌, ◌++◌, ltb, ap,
  ◌∙◌, sym, subst, length, ◌==◌, pos, leb_ℤ, Bool-cases, inl, inr, ==_iff, map,
}
use my_web_server_cmake.Prelude.Run.{done}
use my_web_server_cmake.Timer.{SortTimerLst, Heap, put}
use my_web_server_cmake.Timer.Chain.{Entry, node, first, Chain, ◌∉◌, Chain-put}
use my_web_server_cmake.Timer.Cells.{put_self, out-cons}
use my_web_server_cmake.Timer.Holds.{Holds, add_timer-Holds}
use my_web_server_cmake.Http.Worker.{init_client}
use my_web_server_cmake.Server.{
  Server, ClientData, socket, max_fd, add_client, accept_client, update,
}
use my_web_server_cmake.Server.Expired.{insert-last, AllBy-later, AllBy-append, Sorted-last}
use my_web_server_cmake.Server.InOrder.{InOrder, Owned, data_of, Owned-append}

-- An address that holds nothing is that of no timer of a chain.
pub out-free :
    (h : Heap) (b a : Option ℕ) (p : ℕ) (es : List Entry) → Chain h b es a → h p ≡ none → p ∉ es
out-free h b a p [] c free = refl
out-free h b a p (e ∷ es) c free =
    let ne : p ≢ e.ptr = λ z. none-ne-some (node b (first es a) e) (sym free ∙ ap h z ∙ c.0) in
    out-cons p e es ne (out-free h (some e.ptr) a p es c.1 free)

update_self : {A : Type 0} → (i : ℕ) (x : A) (f : ℕ → A) → update i x f i ≡ x
unfolding update
update_self i x f = ground arith

update-other : {A : Type 0} → (i j : ℕ) (x : A) (f : ℕ → A) → i ≢ j → update i x f j ≡ f j
unfolding update
update-other i j x f ne = ground arith

Owned-update :
    (u : ℕ → Option ClientData) (fd timer : ℕ) (es : List Entry)
    → Owned u es
    → Owned (update fd (some (data_of fd (some timer))) u) es
Owned-update u fd timer [] o = tt
Owned-update u fd timer (e ∷ es) o = (o.0, found, Owned-update u fd timer es o.2)
  where
    new : Option ClientData
    new = some (data_of fd (some timer))

    found : (t : Option ℕ) × (update fd new u e.user_data ≡ some (data_of e.user_data t))
    found = elim (Bool-cases (fd == e.user_data)) [
      | inl eq ↦
          let z = (==_iff fd e.user_data).0 eq in
          (
            some timer,
            subst (λ j. update fd new u j ≡ some (data_of j (some timer))) z (update_self fd new u),
          )
      | inr ne ↦
          let z : fd ≢ e.user_data = λ w. ground (arith, ne, w) in
          (o.1.0, update-other fd e.user_data new u z ∙ o.1.1)
    ]

-- The server with the client `fd`, whose timer is at `timer`, and the list `m`.
abbrev pub with_client : (fd timer : ℕ) → SortTimerLst → Server → Server
with_client fd timer m s =
    let w = init_client (pos fd) s.m_user_count (s.users fd) in
    record s {
      timer_lst = m;
      users_timer = update fd (some (data_of fd (some timer))) s.users_timer;
      users = update fd w.conn s.users;
      sent = update fd [] s.sent;
      m_user_count = w.user_count;
      calls = s.calls ++ map socket w.calls;
    }

-- Accepting a client. For a server in order at `now`, with fewer than MAX_FD users, when accept()
-- returns a socket below MAX_FD at a time `later` that is not before, and `new` an address that was
-- free, accept_client ends, with as many rounds as there are timers. The server is in order at `later`;
-- the new client's timer, which expires three slots after `later`, is the last of the list.
pub accept_client-InOrder :
    (fuel now later fd timer : ℕ) (s : Server) (es : List Entry)
    → InOrder now s es
    → now ≤ later
    → leb_ℤ (pos max_fd) s.m_user_count ≡ false
    → ltb fd max_fd ≡ true
    → s.timer_lst.heap timer ≡ none
    → length es ≤ fuel
    → (m : SortTimerLst) × (accept_client fuel later (pos fd) timer s
        ≡ done (with_client fd timer m s))
      × InOrder later
          (with_client fd timer m s)
          (es ++ record { ptr = timer; expire = later + 15; user_data = fd } ∷ [])
unfolding accept_client add_client
accept_client-InOrder fuel now later fd timer s es i le count in_range free enough =
    let t : Entry = record { ptr = timer; expire = later + 15; user_data = fd } in
    let cell = some (node none none t) in
    let h = put s.timer_lst.heap timer cell in
    let out = out-free s.timer_lst.heap none none timer es i.holds.chain free in
    let v : Holds (record s.timer_lst { heap = h }) es = record {
      chain = Chain-put s.timer_lst.heap timer cell none none es out i.holds.chain;
      distinct = i.holds.distinct;
      head = i.holds.head;
      tail = i.holds.tail;
    } in
    let new = put_self s.timer_lst.heap timer cell in
    let (m, e, w, same) =
      add_timer-Holds fuel t es (record s.timer_lst { heap = h }) v new out enough in
    let by = AllBy-later (now + 15) (later + 15) es (omega (arith, le)) i.by in
    let u = s.users_timer in
    (
      m,
      rw (accept_client, count, add_client, in_range, e) refl,
      record {
        holds = subst (Holds m) (insert-last t es by) w;
        sorted = Sorted-last t es by i.sorted;
        by = AllBy-append (later + 15) es (t ∷ []) by (omega arith, tt);
        owned =
            Owned-append (update fd (some (data_of fd (some timer))) u) es (t ∷ [])
              (Owned-update u fd timer es i.owned)
              (in_range, (some timer, update_self fd (some (data_of fd (some timer))) u), tt);
      },
    )
