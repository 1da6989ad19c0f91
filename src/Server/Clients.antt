-- ===== src/Server/Clients.antt =====
-- main.cpp: a client is dropped, or has its timer put off.
use my_web_server_cmake.Prelude.{
  ℕ, ◌+◌, ◌≡◌, ◌≤◌, refl, arith, none, some, List, [], ◌∷◌, ◌++◌, ap, ◌∙◌, sym, subst, length,
  append_assoc,
}
use my_web_server_cmake.Prelude.Run.{done, ◌>>=◌}
use my_web_server_cmake.Timer.{SortTimerLst}
use my_web_server_cmake.Timer.Chain.{Entry, node, first, last, Chain-split}
use my_web_server_cmake.Timer.Cells.{load-some}
use my_web_server_cmake.Timer.Holds.{Holds}
use my_web_server_cmake.Timer.Adjust.{adjust_timer-Holds}
use my_web_server_cmake.Timer.Delete.{del_timer-Holds}
use my_web_server_cmake.Server.{Server, cb_func, drop_client, put_off}
use my_web_server_cmake.Server.Expired.{
  insert-last, AllBy-later, AllBy-append, AllBy-left, AllBy-right, Sorted-remove, Sorted-last,
}
use my_web_server_cmake.Server.InOrder.{
  InOrder, data_of, Owned-append, Owned-split, retimed, set_expire-Holds,
}

module _ (now : ℕ) (t : Entry) (before after : List Entry) (s : Server) where
  -- Dropping a client. For a server in order whose list has the timer of the client `fd` somewhere,
  -- drop_client ends: the connection's socket is closed, the count of users goes down by one, and the
  -- server is in order with just that timer gone, which is freed.
  pub drop_client-InOrder :
      (fd : ℕ)
      → InOrder now s (before ++ t ∷ after)
      → (m : SortTimerLst) × (drop_client (data_of fd (some t.ptr)) s
          ≡ done (record (cb_func (data_of fd (some t.ptr)) s) { timer_lst = m }))
        × InOrder now
            (record (cb_func (data_of fd (some t.ptr)) s) { timer_lst = m })
            (before ++ after)
        × (m.heap t.ptr ≡ none)
  unfolding drop_client cb_func
  drop_client-InOrder fd i =
      let (m, e, v, freed) = del_timer-Holds t before after s.timer_lst i.holds in
      let cell = (Chain-split s.timer_lst.heap none none before (t ∷ after) i.holds.chain).1.0 in
      let (o1, o2) = Owned-split s.users_timer before (t ∷ after) i.owned in
      (
        m,
        rw
            (
              drop_client,
              load-some s.timer_lst.heap t.ptr (node (last before none) (first after none) t) cell,
              ◌>>=◌,
              e,
            )
            refl,
        record {
          holds = v;
          sorted = Sorted-remove t before after i.sorted;
          by =
              AllBy-append (now + 15) before after (AllBy-left (now + 15) before (t ∷ after) i.by)
                (AllBy-right (now + 15) before (t ∷ after) i.by).1;
          owned = Owned-append s.users_timer before after o1 o2.2;
        },
        freed,
      )

  -- A client that was active goes to the end. For a server in order at `now`, and a timer of its list,
  -- put_off at a time `later` that is not before ends, with as many rounds as timers stand behind that
  -- one; the server is in order at `later`, with the timer, that now expires three slots after `later`,
  -- as the last of the list, and the other timers as they were. Nothing else of the server changes.
  pub put_off-InOrder :
      (fuel later : ℕ)
      → InOrder now s (before ++ t ∷ after)
      → now ≤ later
      → length after ≤ fuel
      → (m : SortTimerLst) × (put_off fuel later (some t.ptr) s ≡ done (record s { timer_lst = m }))
        × InOrder later
            (record s { timer_lst = m })
            ((before ++ after) ++ retimed (later + 15) t ∷ [])
  unfolding put_off
  put_off-InOrder fuel later i le enough =
      let t' = retimed (later + 15) t in
      let (h, e1, v) = set_expire-Holds (later + 15) t before after s.timer_lst i.holds in
      let (m, e2, w) =
        adjust_timer-Holds fuel t' before after (record s.timer_lst { heap = h }) v enough in
      let grown : now + 15 ≤ later + 15 = omega (arith, le) in
      let by = AllBy-later (now + 15) (later + 15) (before ++ t ∷ after) grown i.by in
      let left = AllBy-left (later + 15) before (t ∷ after) by in
      let right = (AllBy-right (later + 15) before (t ∷ after) by).1 in
      let rest = AllBy-append (later + 15) before after left right in
      let place =
        ap (λ zs. before ++ zs) (insert-last t' after right)
        ∙ sym (append_assoc before after (t' ∷ [])) in
      let (o1, o2) = Owned-split s.users_timer before (t ∷ after) i.owned in
      (
        m,
        rw (put_off, e1, ◌>>=◌, e2) refl,
        record {
          holds = subst (Holds m) place w;
          sorted = Sorted-last t' (before ++ after) rest (Sorted-remove t before after i.sorted);
          by = AllBy-append (later + 15) (before ++ after) (t' ∷ []) rest (omega arith, tt);
          owned =
              Owned-append s.users_timer (before ++ after) (t' ∷ [])
                (Owned-append s.users_timer before after o1 o2.2) (o2.0, o2.1, tt);
        },
      )
