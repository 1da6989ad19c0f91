-- ===== src/ConnectionPool/Safety.antt =====
-- cgimysql/src/sql_connection_pool.cpp: what holds of the pool while threads use it.
use mathlib.Core.List.{Perm, perm_middle}
use mathlib.Core.List.Perm
use mathlib.Core.Option.{some-injective, none-ne-some}
use my_web_server_cmake.Prelude.{
  ℕ, zero, suc, ◌+◌, ◌-◌, ◌<◌, ◌≡◌, arith, refl, ◌∙◌, ap, sym, List, [], ◌∷◌, ◌++◌, some, Option,
  length, length-append, pos, ◌+ℤ◌, ◌-ℤ◌, append_assoc, append-nil, subst, Option-cases, List-cases,
  inl, inr,
}
use my_web_server_cmake.ConnectionPool.{
  ConnectionPool, new_pool, connect_all, init, with_reserve, take_connection, put_connection,
  to_count,
}
use my_web_server_cmake.ConnectionPool.Threads.{
  System, Step, finds_none, passes_wait, takes, gives_back, posts, Reach, here, next, quiet,
}

-- `all` are the connections that were made.
pub record Inv (all : List ℕ) (s : System) : Type 0 where
  pub counted : length s.pool.conn_list ≡ s.pool.reserve + s.tickets + s.unposted
  pub free : s.pool.m_free_conn ≡ pos (length s.pool.conn_list)
  pub used : s.pool.m_cur_conn ≡ pos (length s.held)
  pub max : s.pool.m_max_conn ≡ length all
  pub number : length s.pool.conn_list + length s.held ≡ length all
  pub owned : Perm (s.pool.conn_list ++ s.held) all

take_connection-cons :
    (p q : ConnectionPool) (con : ℕ)
    → take_connection p ≡ some (con, q)
    → (p.conn_list ≡ con ∷ q.conn_list)
      × (q.m_free_conn ≡ p.m_free_conn -ℤ pos 1)
      × (q.m_cur_conn ≡ p.m_cur_conn +ℤ pos 1)
      × (q.reserve ≡ p.reserve)
      × (q.m_max_conn ≡ p.m_max_conn)
unfolding take_connection
take_connection-cons p q con e = ground arith

takes-Inv :
    (all : List ℕ) (s : System) (con : ℕ) (p : ConnectionPool)
    → Inv all s
    → 0 < s.tickets
    → take_connection s.pool ≡ some (con, p)
    → Inv all (record s { pool = p; tickets = s.tickets - 1; held = con ∷ s.held })
takes-Inv all s con p v lt e =
    let (list, free, cur, reserve, max) = take_connection-cons s.pool p con e in
    record {
      counted = omega (arith, ap length list, v.counted);
      free = ground (arith, free, v.free, list);
      used = ground (arith, cur, v.used);
      max = max ∙ v.max;
      number = omega (arith, ap length list, v.number);
      owned =
          Perm.trans (perm_middle p.conn_list s.held)
            (subst (λ l. Perm (l ++ s.held) all) list v.owned);
    }

gives_back-Inv :
    (all : List ℕ) (s : System) (con : ℕ) (before after : List ℕ)
    → Inv all s
    → s.held ≡ before ++ con ∷ after
    → Inv all (record s {
      pool = put_connection con s.pool;
      held = before ++ after;
      unposted = s.unposted + 1;
    })
unfolding put_connection
gives_back-Inv all s con before after v e = record {
  counted = omega (arith, length-append s.pool.conn_list (con ∷ []), v.counted);
  free = ground (arith, v.free, length-append s.pool.conn_list (con ∷ []));
  used =
      ground (
        arith,
        v.used,
        ap length e,
        length-append before (con ∷ after),
        length-append before after,
      );
  max = v.max;
  number = omega (
    arith,
    v.number,
    length-append s.pool.conn_list (con ∷ []),
    ap length e,
    length-append before (con ∷ after),
    length-append before after,
  );
  owned =
      Perm.trans
        (subst (λ l. Perm l (s.pool.conn_list ++ (before ++ con ∷ after)))
          (sym (append_assoc s.pool.conn_list (con ∷ []) (before ++ after)))
          (Perm.append_left s.pool.conn_list (Perm.symm (perm_middle before after))))
        (subst (λ l. Perm (s.pool.conn_list ++ l) all) e v.owned);
}

-- Every step of any thread keeps the pool in order: the list, the semaphore and the threads under way
-- agree, the two counters are the numbers of free and of used connections, and the free connections
-- together with the used ones are just those that were made.
pub Step-Inv : (all : List ℕ) {s t : System} → Step s t → Inv all s → Inv all t
Step-Inv all {s} (finds_none t h e) v = subst (Inv all) (sym e) v
Step-Inv all {s} (passes_wait t h e) v = subst (Inv all) (sym e) (record {
  counted = omega (arith, v.counted);
  free = v.free;
  used = v.used;
  max = v.max;
  number = v.number;
  owned = v.owned;
})
Step-Inv all {s} (takes con p t h g e) v = subst (Inv all) (sym e) (takes-Inv all s con p v h g)
Step-Inv all {s} (gives_back con before after t h e) v =
    subst (Inv all) (sym e) (gives_back-Inv all s con before after v h)
Step-Inv all {s} (posts t h e) v = subst (Inv all) (sym e) (record {
  counted = omega (arith, v.counted);
  free = v.free;
  used = v.used;
  max = v.max;
  number = v.number;
  owned = v.owned;
})

Reach-keeps : (all : List ℕ) {s t : System} → Inv all s → Reach s t → Inv all t
Reach-keeps all v here = v
Reach-keeps all v (next r st) = Step-Inv all st (Reach-keeps all v r)

-- The pool while init is filling it.
record Filling (p : ConnectionPool) : Type 0 where
  free : p.m_free_conn ≡ pos (length p.conn_list)
  used : p.m_cur_conn ≡ pos 0

connect_all-Filling :
    (connect : ℕ → Option ℕ) (n i : ℕ) (p q : ConnectionPool)
    → Filling p
    → connect_all connect n i p ≡ some q
    → Filling q × (length q.conn_list ≡ length p.conn_list + n)
unfolding connect_all
connect_all-Filling connect zero i p q v e =
    subst (λ r. Filling r × (length r.conn_list ≡ length p.conn_list + 0)) (some-injective _ _ e)
      (v, omega arith)
connect_all-Filling connect (suc n) i p q v e = elim (Option-cases (connect i)) [
  | inl h ↦ absurd (none-ne-some _ (sym (simp (connect_all, h)) ∙ e))
  | inr (con, h) ↦
      let p1 : ConnectionPool = record p {
        conn_list = p.conn_list ++ con ∷ [];
        m_free_conn = p.m_free_conn +ℤ pos 1;
      } in
      let more = length-append p.conn_list (con ∷ []) in
      let (w, len) =
        connect_all-Filling connect n (i + 1) p1 q
          (record { free = ground (arith, v.free, more); used = v.used })
          (sym (simp (connect_all, h)) ∙ e) in
      (w, omega (arith, len, more))
]

-- When every connection of init succeeds, the pool has the number asked for, and is in order.
pub init-Inv :
    (connect : ℕ → Option ℕ) (maxconn : ℕ) (p : ConnectionPool)
    → init connect maxconn new_pool ≡ some p
    → (length p.conn_list ≡ maxconn) × Inv p.conn_list (quiet p)
unfolding init new_pool
init-Inv connect maxconn p e = elim (Option-cases (connect_all connect maxconn 0 new_pool)) [
  | inl h ↦ absurd (none-ne-some _ (sym (simp (init, h)) ∙ e))
  | inr (q, h) ↦
      let (w, len) =
        connect_all-Filling connect maxconn 0 new_pool q (record { free = refl; used = refl }) h in
      let eq : with_reserve q ≡ p = some-injective _ _ (sym (simp (init, h)) ∙ e) in
      subst (λ r. (length r.conn_list ≡ maxconn) × Inv r.conn_list (quiet r)) eq
        (
          omega (arith, len),
          record {
            counted = ground (arith, w.free);
            free = w.free;
            used = w.used;
            max = ap to_count w.free;
            number = omega arith;
            owned =
                subst (λ l. Perm l q.conn_list) (sym (append-nil q.conn_list))
                  (Perm.refl q.conn_list);
          },
        )
]

abbrev after_take : ConnectionPool → List ℕ → ConnectionPool
after_take p rest = record p {
  conn_list = rest;
  m_free_conn = p.m_free_conn -ℤ pos 1;
  m_cur_conn = p.m_cur_conn +ℤ pos 1;
}

-- From init, after any steps of any number of threads: a thread that has passed `reserve.wait()` finds
-- a connection in the list, so front() is never called on an empty list.
pub init-take_connection :
    (connect : ℕ → Option ℕ) (maxconn : ℕ) (p : ConnectionPool) (s : System)
    → init connect maxconn new_pool ≡ some p
    → Reach (quiet p) s
    → 0 < s.tickets
    → (con : ℕ) × (q : ConnectionPool) × (take_connection s.pool ≡ some (con, q))
unfolding take_connection
init-take_connection connect maxconn p s e r lt =
    let (len, v) = init-Inv connect maxconn p e in
    let w = Reach-keeps p.conn_list v r in
    elim (List-cases s.pool.conn_list) [
      | inl h ↦ absurd (omega (arith, ap length h, w.counted))
      | inr (con, rest, h) ↦ (con, after_take s.pool rest, simp (take_connection, h))
    ]

-- From init, after any steps, when all connections have been given back and no thread is under way:
-- the semaphore, the list and the counters are what init made them, the list up to its order.
pub init-given_back :
    (connect : ℕ → Option ℕ) (maxconn : ℕ) (p q : ConnectionPool)
    → init connect maxconn new_pool ≡ some p
    → Reach (quiet p) (quiet q)
    → (q.reserve ≡ maxconn)
      × (q.m_free_conn ≡ pos maxconn)
      × (q.m_cur_conn ≡ pos 0)
      × Perm q.conn_list p.conn_list
init-given_back connect maxconn p q e r =
    let (len, v) = init-Inv connect maxconn p e in
    let w = Reach-keeps p.conn_list v r in
    let same : Perm q.conn_list p.conn_list =
      subst (λ l. Perm l p.conn_list) (append-nil q.conn_list) w.owned in
    (omega (arith, w.counted, w.number), ground (arith, w.free, w.number), w.used, same)
