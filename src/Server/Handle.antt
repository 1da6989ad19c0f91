-- ===== src/Server/Handle.antt =====
-- main.cpp: the events of a client.
use my_web_server_cmake.Prelude.{
  ℕ, ◌+◌, ◌≡◌, ◌≤◌, refl, arith, Bool, true, false, map, some, List, [], ◌∷◌, ◌++◌, ltb, ap, sym,
  subst, length,
}
use my_web_server_cmake.Prelude.Run.{done, fault, ◌>>=◌}
use my_web_server_cmake.Timer.Chain.{Entry}
use my_web_server_cmake.Timer.Holds.{Holds}
use my_web_server_cmake.Http.Conn.{Conn}
use my_web_server_cmake.Http.Text.{Bytes}
use my_web_server_cmake.Http.Worker.{Recv, read}
use my_web_server_cmake.ThreadPool
use my_web_server_cmake.ThreadPool.{ThreadPool}
use my_web_server_cmake.Http.Send
use my_web_server_cmake.Http.Send.{write}
use my_web_server_cmake.Server.{
  Server, send_call, max_fd, client, hang_up, read_client, write_client, drop_client, put_off,
  cb_func, update, with_output,
}
use my_web_server_cmake.Server.Dispatch.{go_on}
use my_web_server_cmake.Server.Expired.{AllBy-later}
use my_web_server_cmake.Server.InOrder.{InOrder, Owned, data_of, client-some}
use my_web_server_cmake.Server.Clients.{drop_client-InOrder, put_off-InOrder}
use my_web_server_cmake.Server.Effects.{Effect, dropping, putting_off, Handled}

pub same-InOrder :
    (now later : ℕ) (s s1 : Server) (es : List Entry)
    → now ≤ later
    → s.timer_lst ≡ s1.timer_lst
    → s.users_timer ≡ s1.users_timer
    → InOrder now s es
    → InOrder later s1 es
same-InOrder now later s s1 es le l u i = record {
  holds = subst (λ x. Holds x es) l i.holds;
  sorted = i.sorted;
  by = AllBy-later (now + 15) (later + 15) es (omega (arith, le)) i.by;
  owned = subst (λ x. Owned x es) u i.owned;
}

length-behind : (xs ys : List Entry) (t : Entry) → length ys ≤ length (xs ++ t ∷ ys)
length-behind [] ys t = omega arith
length-behind (x ∷ xs) ys t = omega (arith, length-behind xs ys t)

-- The event of a client whose timer is `t`.
module _ (now later fuel fd : ℕ) (t : Entry) (before after : List Entry) (s : Server)
    (le : now ≤ later) (enough : length (before ++ t ∷ after) ≤ fuel)
    (in_range : ltb fd max_fd ≡ true) (data_is : s.users_timer fd ≡ some (data_of fd (some t.ptr)))
    (i : InOrder now s (before ++ t ∷ after)) where
  found : client fd s ≡ done (data_of fd (some t.ptr))
  found = client-some fd (data_of fd (some t.ptr)) s in_range data_is

  dropped :
      (s1 : Server)
      → s.timer_lst ≡ s1.timer_lst
      → s.users_timer ≡ s1.users_timer
      → Handled later
          (dropping fd before after s1)
          (go_on (drop_client (data_of fd (some t.ptr)) s1))
  unfolding cb_func
  dropped s1 l u =
      let i1 = same-InOrder now later s s1 (before ++ t ∷ after) le l u i in
      let (m, e, j, freed) = drop_client-InOrder later t before after s1 fd i1 in
      record {
        server = record (cb_func (data_of fd (some t.ptr)) s1) { timer_lst = m };
        ends = ap go_on e;
        in_order = j;
        calls = refl;
        m_user_count = refl;
        pool = refl;
        timeout = refl;
      }

  kept :
      (s1 : Server)
      → s.timer_lst ≡ s1.timer_lst
      → s.users_timer ≡ s1.users_timer
      → Handled later
          (putting_off later before t after s1)
          (go_on (put_off fuel later (some t.ptr) s1))
  kept s1 l u =
      let i1 = same-InOrder now now s s1 (before ++ t ∷ after) (omega arith) l u i in
      let (m, e, j) =
        put_off-InOrder now t before after s1 fuel later i1 le
          (omega (arith, enough, length-behind before after t)) in
      record {
        server = record s1 { timer_lst = m };
        ends = ap go_on e;
        in_order = j;
        calls = refl;
        m_user_count = refl;
        pool = refl;
        timeout = refl;
      }

  pub hang_up-Handled : Handled later (dropping fd before after s) (go_on (hang_up fd s))
  unfolding hang_up
  hang_up-Handled = rw (hang_up, found, ◌>>=◌) (dropped s refl refl)

  abbrev pub read_effect : Bool → Effect
  read_effect true = record (putting_off later before t after s) {
    pool = (ThreadPool.append (some fd) s.pool).1;
  }
  read_effect false = dropping fd before after s

  pub read_client-Handled :
      (results : List Recv) (ok : Bool) (c : Conn)
      → read results (s.users fd) ≡ some (ok, c)
      → Handled later (read_effect ok) (go_on (read_client fuel later fd results s))
  unfolding read_client
  read_client-Handled results true c e =
      let s1 = record s {
        users = update fd c s.users;
        pool = (ThreadPool.append (some fd) s.pool).1;
      } in
      let eq : read_client fuel later fd results s ≡ put_off fuel later (some t.ptr) s1 =
        rw (read_client, found, ◌>>=◌, e) refl in
      subst (λ r. Handled later (read_effect true) (go_on r)) (sym eq) (kept s1 refl refl)
  read_client-Handled results false c e =
      let s1 = record s { users = update fd c s.users } in
      let eq : read_client fuel later fd results s ≡ drop_client (data_of fd (some t.ptr)) s1 =
        rw (read_client, found, ◌>>=◌, e) refl in
      subst (λ r. Handled later (read_effect false) (go_on r)) (sym eq) (dropped s1 refl refl)

  abbrev pub write_effect : Bool → List Send.Call → Effect
  write_effect true calls =
      putting_off later before t after (record s { calls = s.calls ++ map (send_call fd) calls })
  write_effect false calls =
      dropping fd before after (record s { calls = s.calls ++ map (send_call fd) calls })

  pub write_client-Handled :
      (results : List Send.Writev) (ok : Bool) (c : Conn) (sent : Bytes) (calls : List Send.Call)
      → write results (s.users fd) (s.sent fd) ≡ Send.returned ok c sent calls
      → Handled later (write_effect ok calls) (go_on (write_client fuel later fd results s))
  unfolding write_client
  write_client-Handled results true c sent calls e =
      let s1 = with_output fd c sent calls s in
      let eq : write_client fuel later fd results s ≡ put_off fuel later (some t.ptr) s1 =
        rw (write_client, found, ◌>>=◌, e) refl in
      subst (λ r. Handled later (write_effect true calls) (go_on r)) (sym eq) (kept s1 refl refl)
  write_client-Handled results false c sent calls e =
      let s1 = with_output fd c sent calls s in
      let eq : write_client fuel later fd results s ≡ drop_client (data_of fd (some t.ptr)) s1 =
        rw (write_client, found, ◌>>=◌, e) refl in
      subst (λ r. Handled later (write_effect false calls) (go_on r)) (sym eq)
        (dropped s1 refl refl)

  pub write_client-fault :
      (results : List Send.Writev)
      → write results (s.users fd) (s.sent fd) ≡ Send.fault
      → write_client fuel later fd results s ≡ fault
  unfolding write_client
  write_client-fault results e = rw (write_client, found, ◌>>=◌, e) refl
