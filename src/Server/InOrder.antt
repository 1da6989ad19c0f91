-- ===== src/Server/InOrder.antt =====
-- main.cpp: what holds of the timers of the clients between events.
use my_web_server_cmake.Prelude.{
  ℕ, ◌+◌, ◌≡◌, refl, true, Option, none, some, List, [], ◌∷◌, ◌++◌, ltb, ap, ◌∙◌, sym, ◌||◌, ◌==◌,
}
use my_web_server_cmake.Prelude.Run.{done, ◌>>=◌}
use my_web_server_cmake.Timer.{SortTimerLst, Heap, put}
use my_web_server_cmake.Timer.Chain.{
  Entry, node, first, last, has, Distinct, Chain-put, Chain-append, Chain-split, last-append,
}
use my_web_server_cmake.Timer.Cells.{put_self, load-some}
use my_web_server_cmake.Timer.Holds.{HasTail, Holds}
use my_web_server_cmake.Timer.Unlink.{Distinct-remove, out-left, out-right}
use my_web_server_cmake.Server.{Server, ClientData, max_fd, client, set_expire}
use my_web_server_cmake.Server.Expired.{AllBy, Sorted}

-- A client's data as add_client writes it.
abbrev pub data_of : (fd : ℕ) → (timer : Option ℕ) → ClientData
data_of fd timer = record { sockfd = fd; timer = timer }

-- The timers' owners are clients.
abbrev pub Owned : (ℕ → Option ClientData) → List Entry → Type 0
Owned users_timer [] = Unit {0}
Owned users_timer (e ∷ es) =
    (ltb e.user_data max_fd ≡ true)
    × ((timer : Option ℕ) × (users_timer e.user_data ≡ some (data_of e.user_data timer)))
    × Owned users_timer es

-- The timers `es` are those of the list, by their times, and none has more than three slots to go.
pub record InOrder (now : ℕ) (s : Server) (es : List Entry) : Type 0 where
  pub holds : Holds s.timer_lst es
  pub sorted : Sorted es
  pub by : AllBy (now + 15) es
  pub owned : Owned s.users_timer es

-- The client `fd` has the timer `t` of the list.
pub record Registered (s : Server) (fd : ℕ) (before : List Entry) (t : Entry) (after : List Entry)
    : Type 0 where
  pub in_range : ltb fd max_fd ≡ true
  pub data_is : s.users_timer fd ≡ some (data_of fd (some t.ptr))

pub client-some :
    (fd : ℕ) (d : ClientData) (s : Server)
    → ltb fd max_fd ≡ true
    → s.users_timer fd ≡ some d
    → client fd s ≡ done d
unfolding client
client-some fd d s lt e = rw (client, lt, e) refl

pub Owned-append :
    (u : ℕ → Option ClientData) (xs ys : List Entry) → Owned u xs → Owned u ys → Owned u (xs ++ ys)
Owned-append u [] ys o p = p
Owned-append u (x ∷ xs) ys o p = (o.0, o.1, Owned-append u xs ys o.2 p)

pub Owned-split :
    (u : ℕ → Option ClientData) (xs ys : List Entry) → Owned u (xs ++ ys) → Owned u xs × Owned u ys
Owned-split u [] ys o = (tt, o)
Owned-split u (x ∷ xs) ys o = let (p, q) = Owned-split u xs ys o.2 in ((o.0, o.1, p), q)

-- A timer with another time.
abbrev pub retimed : ℕ → Entry → Entry
retimed x t = record t { expire = x }

module _ (x : ℕ) (t : Entry) where
  has-retimed : (p : ℕ) (es ys : List Entry) → has p (es ++ retimed x t ∷ ys) ≡ has p (es ++ t ∷ ys)
  has-retimed p [] ys = refl
  has-retimed p (e ∷ es) ys = ap (λ b. (p == e.ptr) || b) (has-retimed p es ys)

  Distinct-retimed :
      (es ys : List Entry) → Distinct (es ++ t ∷ ys) → Distinct (es ++ retimed x t ∷ ys)
  Distinct-retimed [] ys d = d
  Distinct-retimed (e ∷ es) ys d = (has-retimed e.ptr es ys ∙ d.0, Distinct-retimed es ys d.1)

  head-retimed :
      (es ys : List Entry) → first (es ++ t ∷ ys) none ≡ first (es ++ retimed x t ∷ ys) none
  head-retimed [] ys = refl
  head-retimed (e ∷ es) ys = refl

  tail-retimed :
      (tail : Option ℕ) (es ys : List Entry)
      → HasTail tail (es ++ t ∷ ys)
      → HasTail tail (es ++ retimed x t ∷ ys)
  tail-retimed tail [] ys h = h
  tail-retimed tail (e ∷ es) ys h =
      h
      ∙ last-append es (t ∷ ys) (some e.ptr)
      ∙ sym (last-append es (retimed x t ∷ ys) (some e.ptr))

  -- `timer->expire = x` for a timer of the list.
  pub set_expire-Holds :
      (before after : List Entry) (l : SortTimerLst)
      → Holds l (before ++ t ∷ after)
      → (h : Heap) × (set_expire t.ptr x l.heap ≡ done h)
        × Holds (record l { heap = h }) (before ++ retimed x t ∷ after)
  unfolding set_expire
  set_expire-Holds before after l v =
      let (c1, c2) = Chain-split l.heap none none before (t ∷ after) v.chain in
      let (rest, out) = Distinct-remove before after t v.distinct in
      let cell = some (node (last before none) (first after none) (retimed x t)) in
      let h = put l.heap t.ptr cell in
      let left =
        Chain-put l.heap t.ptr cell none (some t.ptr) before (out-left t.ptr before after out) c1 in
      let right =
        Chain-put l.heap t.ptr cell (some t.ptr) none after (out-right t.ptr before after out)
          c2.1 in
      (
        h,
        rw
            (
              set_expire,
              load-some l.heap t.ptr (node (last before none) (first after none) t) c2.0,
              ◌>>=◌,
            )
            refl,
        record {
          chain =
              Chain-append h none none before (retimed x t ∷ after) left
                (put_self l.heap t.ptr cell, right);
          distinct = Distinct-retimed before after v.distinct;
          head = v.head ∙ head-retimed before after;
          tail = tail-retimed l.tail before after v.tail;
        },
      )
